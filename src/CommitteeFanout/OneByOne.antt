-- ===== src/CommitteeFanout/OneByOne.antt =====
-- An event loop that completes the tasks in the order of their list, for concrete runs of
-- pytusk/core/committee_fanout.py.
use mathlib.Core.List.{Perm}
use mathlib.Core.List.Perm
use mathlib.Core.Option.{some-injective}
use pytusk.Prelude.{
  ◌≡◌, ◌≢◌, refl, subst, Bool, true, false, All, Option, some, List, [], ◌∷◌, ◌++◌,
}
use pytusk.CommitteeFanout.{EventLoop, EventLoopLaws}

-- The first task of the list is done next.
unfoldable pub first_done : {Task : Type 0} → List Task → Option (List Task × List Task)
first_done [] = some ([], [])
first_done (t ∷ ts) = some (t ∷ [], ts)

abbrev pub one_by_one : {Task : Type 0} → EventLoop Task
one_by_one = record {
  first_completed = λ k pending. first_done pending;
  within_grace = λ pending. first_done pending;
  gather_interrupted = λ stragglers. false;
  done = λ t. true;
}

first_done-parts :
    {Task : Type 0} (pending done rest : List Task)
    → first_done pending ≡ some (done, rest)
    → Perm (done ++ rest) pending
unfolding first_done
first_done-parts {Task} [] done rest e =
    subst (λ (p : List Task × List Task). Perm (p.0 ++ p.1) []) (some-injective _ _ e)
      (Perm.refl [])
first_done-parts {Task} (t ∷ ts) done rest e =
    subst (λ (p : List Task × List Task). Perm (p.0 ++ p.1) (t ∷ ts)) (some-injective _ _ e)
      (Perm.refl (t ∷ ts))

first_done-progress :
    {Task : Type 0} (pending done rest : List Task)
    → pending ≢ []
    → first_done pending ≡ some (done, rest)
    → done ≢ []
unfolding first_done
first_done-progress [] done rest nonempty e = absurd (nonempty refl)
first_done-progress (t ∷ ts) done rest nonempty e = λ none_done. cc (e, none_done)

all_done : {Task : Type 0} (ts : List Task) → All (λ t. ◌≡◌ {A = Bool} true true) ts
all_done [] = tt
all_done (t ∷ ts) = (refl, all_done ts)

pub one_by_one_laws : {Task : Type 0} → EventLoopLaws (one_by_one {Task = Task})
one_by_one_laws = record {
  first_parts = λ k. first_done-parts;
  first_progress = λ k. first_done-progress;
  grace_parts = first_done-parts;
  first_done = λ k pending done rest e. all_done done;
  grace_done = λ pending done rest e. all_done done;
  gather_done = λ stragglers e. all_done stragglers;
}
