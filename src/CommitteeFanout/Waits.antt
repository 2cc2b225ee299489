-- ===== src/CommitteeFanout/Waits.antt =====
-- The wait loop of fan_out_to_committee (pytusk/core/committee_fanout.py).
use mathlib.Core.List.{foldl, foldl-append, append_assoc, Perm, Permᴰ}
use mathlib.Core.List.Perm
use mathlib.Core.Logic.{∥∥₁_elim}
use native.Mathlib.Nat.{ℕ_set}
use pytusk.Prelude.{
  ℕ, zero, suc, ◌+◌, ◌≤◌, ◌≡◌, ◌≢◌, refl, ap, ◌∙◌, ◌⊎◌, inl, inr, Bool, true, false, some, List, [],
  ◌∷◌, ◌++◌, length, length-append, arith, All, Bool-cases, Option-cases,
}
use pytusk.CommitteeFanout.Leftover.{All-append}
use pytusk.CommitteeFanout.{EventLoop, EventLoopLaws, Waited, wait_loop}

Permᴰ-length : {A : Type 0} {xs ys : List A} → Permᴰ xs ys → length xs ≡ length ys
Permᴰ-length Permᴰ.nil = refl
Permᴰ-length (Permᴰ.cons e p) = ap suc (Permᴰ-length p)
Permᴰ-length (Permᴰ.swap e f) = refl
Permᴰ-length (Permᴰ.trans p q) = Permᴰ-length p ∙ Permᴰ-length q

pub perm-length : {A : Type 0} (xs ys : List A) → Perm xs ys → length xs ≡ length ys
perm-length xs ys p = ∥∥₁_elim p (ℕ_set (length xs) (length ys)) Permᴰ-length

-- A wait leaves fewer tasks.
pub rest-shorter :
    {Task : Type 0} (loop : EventLoop Task)
    → EventLoopLaws loop
    → (k fuel : ℕ) (pending done rest : List Task) → pending ≢ []
    → length pending ≤ suc fuel
    → loop.first_completed k pending ≡ some (done, rest)
    → length rest ≤ fuel
rest-shorter loop laws k fuel pending [] rest nonempty le e =
    absurd (laws.first_progress k pending [] rest nonempty e refl)
rest-shorter loop laws k fuel pending (d ∷ done) rest nonempty le e = omega (
  arith,
  perm-length (d ∷ done ++ rest) pending (laws.first_parts k pending (d ∷ done) rest e),
  length-append {0} done rest,
)

module _ {Task A : Type 0} (loop : EventLoop Task) (on_completed on_cancelled : A → Task → A)
    (should_stop : A → Bool) where
  -- The same for the wait loop.
  pub record IsWaited (tasks : List Task) (start : A) (w : Waited Task A) : Type 0 where
    pub once : Perm (w.completed ++ w.pending) tasks
    pub folded : w.acc ≡ foldl on_completed start w.completed
    pub completed_done : All (λ t. loop.done t ≡ true) w.completed
    pub stopped : (w.interrupted ≡ true) ⊎ ((w.pending ≡ []) ⊎ (should_stop w.acc ≡ true))

  module _ (laws : EventLoopLaws loop) (tasks : List Task) (start : A) where
    pub move :
        (completed done rest pending : List Task)
        → Perm (done ++ rest) pending
        → Perm (completed ++ pending) tasks
        → Perm ((completed ++ done) ++ rest) tasks
    move completed done rest pending part all =
        rw append_assoc (Perm.trans (Perm.append_left completed part) all)

    abbrev pub waited : A → List Task → List Task → Bool → Waited Task A
    waited acc completed pending interrupted = record {
      acc = acc;
      completed = completed;
      pending = pending;
      interrupted = interrupted;
    }

    pub wait_loop-IsWaited :
        (fuel k : ℕ) (pending : List Task) (acc : A) (completed : List Task)
        → length pending ≤ fuel
        → Perm (completed ++ pending) tasks
        → acc ≡ foldl on_completed start completed
        → All (λ t. loop.done t ≡ true) completed
        → (w : Waited Task A) × (wait_loop loop on_completed on_cancelled should_stop fuel k pending
              acc completed
            ≡ some w)
          × IsWaited tasks start w
    unfolding wait_loop
    wait_loop-IsWaited fuel k [] acc completed le all e d = (
      waited acc completed [] false,
      refl,
      record { once = all; folded = e; completed_done = d; stopped = inr (inl refl) },
    )
    wait_loop-IsWaited zero k (t ∷ ts) acc completed le all e d = absurd (omega arith)
    wait_loop-IsWaited (suc fuel) k (t ∷ ts) acc completed le all e d =
        elim (Option-cases (loop.first_completed k (t ∷ ts))) [
          | inl n ↦ (
            waited acc completed (t ∷ ts) true,
            rw (n, wait_loop),
            record { once = all; folded = e; completed_done = d; stopped = inl refl },
          )
          | inr ((done, rest), y) ↦
              let all' =
                move completed done rest (t ∷ ts) (laws.first_parts k (t ∷ ts) done rest y) all in
              let e' : foldl on_completed acc done ≡ foldl on_completed start (completed ++ done) =
                rw (foldl-append, e) in
              let d' = All-append _ completed done d (laws.first_done k (t ∷ ts) done rest y) in
              let le' = rest-shorter loop laws k fuel (t ∷ ts) done rest (λ p. cc) le y in
              elim (Bool-cases (should_stop (foldl on_completed acc done))) [
                | inl stop ↦ (
                  waited (foldl on_completed acc done) (completed ++ done) rest false,
                  rw (y, wait_loop) (rw stop),
                  record {
                    once = all';
                    folded = e';
                    completed_done = d';
                    stopped = inr (inr stop);
                  },
                )
                | inr on ↦
                    let (w, eq, is) =
                      wait_loop-IsWaited fuel (k + 1) rest (foldl on_completed acc done)
                        (completed ++ done) le' all' e' d' in
                    (w, rw (y, wait_loop) (rw on eq), is)
              ]
        ]
