-- ===== src/CommitteeFanout/Accounts.antt =====
-- Every task of a fan-out is accounted for once (pytusk/core/committee_fanout.py).
use mathlib.Core.List.{foldl, foldl-append, append-nil, Perm}
use mathlib.Core.List.Perm
use native.Mathlib.Nat.{le_refl}
use pytusk.Prelude.{
  ℕ, ◌≡◌, refl, subst, ◌⊎◌, inl, inr, Bool, true, false, some, List, [], ◌∷◌, ◌++◌, length, arith,
  All, if◌then◌else◌, Option-cases,
}
use pytusk.CommitteeFanout.Leftover.{
  All-append, leftover-Perm, leftover-done, leftover-none, leftover-running, dropped,
}
use pytusk.CommitteeFanout.Waits.{perm-length, IsWaited, move, waited, wait_loop-IsWaited}
use pytusk.CommitteeFanout.{
  EventLoop, EventLoopLaws, Fanned, Waited, no_tasks, cut_off, leftover, sweep, grace_window,
  after_loop, fan_out_to_committee,
}

empty_of : {A : Type 0} (xs : List A) → ◌≡◌ {A = ℕ} 0 (length xs) → xs ≡ []
empty_of [] e = refl
empty_of (x ∷ xs) e = absurd (omega arith)

module _ {Task A : Type 0} (loop : EventLoop Task) (on_completed on_cancelled : A → Task → A)
    (should_stop : A → Bool) where
  -- The caller's threshold was met after some of the completed tasks.
  abbrev pub StoppedOn : A → List Task → Type 0
  StoppedOn start completed =
      (before : List Task) × (after : List Task) × (completed ≡ before ++ after)
      × (should_stop (foldl on_completed start before) ≡ true)

  -- The reports of a fan-out: every task is reported as completed, reported as cancelled or not reported,
  -- just once; the accumulator is folded over the reports in their order; tasks are left without a report only
  -- when the caller is cancelled, and reported as cancelled only after the threshold. Nothing outlives the
  -- fan-out: the completed tasks are done, and so are the others, but those that the `finally` block cancels,
  -- which needs no more than these, and has none unless the caller is cancelled.
  pub record IsAccount (tasks : List Task) (start : A) (out : Fanned Task A) : Type 0 where
    pub once : Perm (out.completed ++ (out.cancelled ++ out.unreported)) tasks
    pub folded : out.acc ≡ foldl on_cancelled (foldl on_completed start out.completed) out.cancelled
    pub unreported_if : (out.interrupted ≡ true) ⊎ (out.unreported ≡ [])
    pub cancelled_if : (out.cancelled ≡ []) ⊎ StoppedOn start out.completed
    pub completed_done : All (λ t. loop.done t ≡ true) out.completed
    pub finished : List Task
    pub finished_done : All (λ t. loop.done t ≡ true) finished
    pub swept_running : All (λ t. loop.done t ≡ false) out.swept
    pub swept : Perm (finished ++ out.swept) (out.cancelled ++ out.unreported)
    pub swept_if : (out.interrupted ≡ true) ⊎ (out.swept ≡ [])

  -- The same before the `finally` block.
  record IsReported (tasks : List Task) (start : A) (out : Fanned Task A) : Type 0 where
    once : Perm (out.completed ++ (out.cancelled ++ out.unreported)) tasks
    folded : out.acc ≡ foldl on_cancelled (foldl on_completed start out.completed) out.cancelled
    unreported_if : (out.interrupted ≡ true) ⊎ (out.unreported ≡ [])
    cancelled_if : (out.cancelled ≡ []) ⊎ StoppedOn start out.completed
    completed_done : All (λ t. loop.done t ≡ true) out.completed
    cancelled_done : (out.interrupted ≡ true) ⊎ All (λ t. loop.done t ≡ true) out.cancelled

  module _ (laws : EventLoopLaws loop) (tasks : List Task) (start : A) where
    cut_off_lem :
        (w : Waited Task A)
        → IsWaited loop on_completed on_cancelled should_stop tasks start w
        → IsReported tasks start
            (cut_off loop on_completed on_cancelled should_stop w.acc w.completed w.pending)
    cut_off_lem w is = record {
      once = is.once;
      folded = is.folded;
      unreported_if = inl refl;
      cancelled_if = inl refl;
      completed_done = is.completed_done;
      cancelled_done = inl refl;
    }

    gathered :
        (stragglers : List Task) (interrupted : Bool)
        → (if no_tasks stragglers then false else loop.gather_interrupted stragglers) ≡ interrupted
        → (interrupted ≡ true) ⊎ All (λ t. loop.done t ≡ true) stragglers
    gathered stragglers true e = inl refl
    gathered [] false e = inr tt
    gathered (t ∷ ts) false e = inr (laws.gather_done (t ∷ ts) e)

    grace_lem :
        (w : Waited Task A)
        → IsWaited loop on_completed on_cancelled should_stop tasks start w
        → should_stop w.acc ≡ true
        → IsReported tasks start
            (grace_window loop on_completed on_cancelled should_stop w.acc w.completed w.pending)
    unfolding grace_window
    grace_lem w is stop = elim (Option-cases (loop.within_grace w.pending)) [
      | inl n ↦ rw (n, grace_window) (cut_off_lem w is)
      | inr ((done, rest), y) ↦
          rw (y, grace_window)
            (record {
              once = rw append-nil (
                  move loop on_completed on_cancelled should_stop laws tasks start w.completed done
                    rest w.pending (laws.grace_parts w.pending done rest y) is.once);
              folded = rw (foldl-append, ← is.folded);
              unreported_if = inr refl;
              cancelled_if = inr (w.completed, done, refl, rw (← is.folded) stop);
              completed_done =
                  All-append _ w.completed done is.completed_done
                    (laws.grace_done w.pending done rest y);
              cancelled_done = gathered rest _ refl;
            })
    ]

    after_loop-IsReported :
        (interrupted : Bool) (acc : A) (completed pending : List Task)
        → IsWaited loop on_completed on_cancelled should_stop tasks start (
            waited loop on_completed on_cancelled should_stop laws tasks start acc completed pending
              interrupted)
        → IsReported tasks start (
            after_loop loop on_completed on_cancelled should_stop interrupted acc completed pending)
    unfolding after_loop
    after_loop-IsReported true acc completed pending is =
        cut_off_lem
          (waited loop on_completed on_cancelled should_stop laws tasks start acc completed pending
            true)
          is
    after_loop-IsReported false acc completed [] is = record {
      once = is.once;
      folded = is.folded;
      unreported_if = inr refl;
      cancelled_if = inl refl;
      completed_done = is.completed_done;
      cancelled_done = inr tt;
    }
    after_loop-IsReported false acc completed (t ∷ ts) is =
        grace_lem
          (waited loop on_completed on_cancelled should_stop laws tasks start acc completed (t ∷ ts)
            false)
          is (ground (arith, is.stopped))

    none_left :
        (out : Fanned Task A)
        → (out.interrupted ≡ true) ⊎ (out.unreported ≡ [])
        → (out.interrupted ≡ true) ⊎ All (λ t. loop.done t ≡ true) out.cancelled
        → Perm
            (leftover loop on_completed on_cancelled should_stop (out.cancelled ++ out.unreported))
            (leftover loop on_completed on_cancelled should_stop tasks)
        → (out.interrupted ≡ true)
          ⊎ (leftover loop on_completed on_cancelled should_stop tasks ≡ [])
    none_left out (inl y) c p = inl y
    none_left out (inr u) (inl y) p = inl y
    none_left out (inr u) (inr c) p =
        let none : leftover loop on_completed on_cancelled should_stop
              (out.cancelled ++ out.unreported)
            ≡ [] =
          rw (u, append-nil)
            (leftover-none loop on_completed on_cancelled should_stop out.cancelled c) in
        inr (
          empty_of _ (
            perm-length [] _ (
              subst (λ ts. Perm ts (leftover loop on_completed on_cancelled should_stop tasks)) none
                p)))

    -- What the `finally` block cancels: the tasks that are not done among those that did not complete.
    sweep-IsAccount :
        (out : Fanned Task A)
        → IsReported tasks start out
        → IsAccount tasks start (sweep loop on_completed on_cancelled should_stop tasks out)
    unfolding sweep
    sweep-IsAccount out is =
        let rest : List Task = out.cancelled ++ out.unreported in
        let left : List Task → List Task = leftover loop on_completed on_cancelled should_stop in
        let same : left (out.completed ++ rest) ≡ left rest =
          leftover-done loop on_completed on_cancelled should_stop out.completed rest
            is.completed_done in
        let moved : Perm (left rest) (left tasks) =
          subst (λ ts. Perm ts (left tasks)) same
            (leftover-Perm loop on_completed on_cancelled should_stop (out.completed ++ rest) tasks
              is.once) in
        let (finished, finished_done, parts) =
          dropped loop on_completed on_cancelled should_stop rest in
        record {
          once = is.once;
          folded = is.folded;
          unreported_if = is.unreported_if;
          cancelled_if = is.cancelled_if;
          completed_done = is.completed_done;
          finished = finished;
          finished_done = finished_done;
          swept_running = leftover-running loop on_completed on_cancelled should_stop tasks;
          swept = Perm.trans (Perm.append_left finished (Perm.symm moved)) parts;
          swept_if = none_left out is.unreported_if is.cancelled_done moved;
        }

    -- Under the laws of the event loop, whatever its waits return: the fan-out ends, and every task is
    -- reported as completed, reported as cancelled or not reported, just once; the accumulator is folded
    -- over the reports in their order. A task is left without a report only when the caller is cancelled,
    -- and reported as cancelled only after the caller's threshold was met by the completed ones. The completed
    -- tasks are done. The `finally` block cancels the tasks without a report and the stragglers that are not
    -- done, and no others; there are none unless the caller is cancelled.
    pub fan_out_accounts :
        (out : Fanned Task A) × (fan_out_to_committee loop on_completed on_cancelled should_stop
            tasks start
          ≡ some out)
        × IsAccount tasks start out
    unfolding fan_out_to_committee
    fan_out_accounts =
        let (w, e, is) =
          wait_loop-IsWaited loop on_completed on_cancelled should_stop laws tasks start
            (length tasks) 0 tasks start [] (le_refl _) (Perm.refl tasks) refl tt in
        (
          _,
          rw (e, fan_out_to_committee) refl,
          sweep-IsAccount _ (after_loop-IsReported w.interrupted w.acc w.completed w.pending is),
        )
