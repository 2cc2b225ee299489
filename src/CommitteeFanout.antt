-- ===== src/CommitteeFanout.antt =====
-- fan_out_to_committee of pytusk/core/committee_fanout.py. The event loop is a parameter: what each
-- asyncio.wait returns. Log calls, the callback on_threshold_reached (which the callers log with) and the
-- length of the grace window (which only decides what the second wait returns) are left out.
pub mod Leftover
pub mod Waits
pub mod Accounts
pub mod OneByOne
mod Runs
use mathlib.Core.List.{foldl}
use mathlib.Core.List.{Perm}
use pytusk.Prelude.{
  ℕ, zero, suc, ◌+◌, ◌≡◌, ◌≢◌, Bool, true, false, Option, none, some, List, [], ◌∷◌, ◌++◌, length,
  not, All, if◌then◌else◌,
}

-- `first_completed k pending` is what the k-th asyncio.wait(pending, return_when=FIRST_COMPLETED)
-- returns, (done, pending); `within_grace pending` is asyncio.wait(pending, timeout=extra_time).
-- `none`: the caller's own task is cancelled at this await. `gather_interrupted stragglers` is true if it is
-- cancelled at the asyncio.gather of the stragglers. `done task` is what task.done() answers in the
-- `finally` block.
pub record EventLoop (Task : Type 0) : Type 0 where
  pub first_completed : ℕ → List Task → Option (List Task × List Task)
  pub within_grace : List Task → Option (List Task × List Task)
  pub gather_interrupted : List Task → Bool
  pub done : Task → Bool

-- What asyncio documents of these waits: they part the tasks that they are given, in any order, into tasks
-- that are done and others, the first one does not return before a task is done, and a gather returns when
-- all of its tasks are done.
pub record EventLoopLaws {Task : Type 0} (loop : EventLoop Task) : Type 0 where
  pub first_parts :
      (k : ℕ) (pending done rest : List Task)
      → loop.first_completed k pending ≡ some (done, rest)
      → Perm (done ++ rest) pending
  pub first_progress :
      (k : ℕ) (pending done rest : List Task)
      → pending ≢ []
      → loop.first_completed k pending ≡ some (done, rest)
      → done ≢ []
  pub grace_parts :
      (pending done rest : List Task)
      → loop.within_grace pending ≡ some (done, rest)
      → Perm (done ++ rest) pending
  pub first_done :
      (k : ℕ) (pending done rest : List Task)
      → loop.first_completed k pending ≡ some (done, rest)
      → All (λ t. loop.done t ≡ true) done
  pub grace_done :
      (pending done rest : List Task)
      → loop.within_grace pending ≡ some (done, rest)
      → All (λ t. loop.done t ≡ true) done
  pub gather_done :
      (stragglers : List Task)
      → loop.gather_interrupted stragglers ≡ false
      → All (λ t. loop.done t ≡ true) stragglers

-- How a fan-out ends: the caller's accumulator, the tasks in the order in which they were reported
-- as completed and as cancelled, those that were not reported, and those that the `finally` block cancels.
pub record Fanned (Task A : Type 0) : Type 0 where
  pub acc : A
  pub completed : List Task
  pub cancelled : List Task
  pub unreported : List Task
  pub swept : List Task
  pub interrupted : Bool

-- The state at the end of the wait loop.
pub record Waited (Task A : Type 0) : Type 0 where
  pub acc : A
  pub completed : List Task
  pub pending : List Task
  pub interrupted : Bool

abbrev no_tasks : {A : Type 0} → List A → Bool
no_tasks [] = true
no_tasks (x ∷ xs) = false

module _ {Task A : Type 0} (loop : EventLoop Task) (on_completed on_cancelled : A → Task → A)
    (should_stop : A → Bool) where
  -- `while pending: …`; `none` means that the fuel ran out.
  pub wait_loop : ℕ → ℕ → List Task → A → List Task → Option (Waited Task A)
  wait_loop fuel k [] acc completed =
      some (record { acc = acc; completed = completed; pending = []; interrupted = false })
  wait_loop zero k (t ∷ ts) acc completed = none
  wait_loop (suc fuel) k (t ∷ ts) acc completed = elim (loop.first_completed k (t ∷ ts)) [
    | none ↦
        some (record { acc = acc; completed = completed; pending = t ∷ ts; interrupted = true })
    | some (done, rest) ↦
        let acc' = foldl on_completed acc done in
        let again = wait_loop fuel (k + 1) rest acc' (completed ++ done) in
        let stop : Option (Waited Task A) = some (record {
          acc = acc';
          completed = completed ++ done;
          pending = rest;
          interrupted = false;
        }) in
        if should_stop acc' then stop else again
  ]

  -- The caller's task is cancelled at a wait.
  abbrev pub cut_off : A → List Task → List Task → Fanned Task A
  cut_off acc completed pending = record {
    acc = acc;
    completed = completed;
    cancelled = [];
    unreported = pending;
    swept = [];
    interrupted = true;
  }

  -- The grace window, the cancellation of the stragglers and the wait for them.
  pub grace_window : A → List Task → List Task → Fanned Task A
  grace_window acc completed pending = elim (loop.within_grace pending) [
    | none ↦ cut_off acc completed pending
    | some (done, still_pending) ↦ record {
      acc = foldl on_cancelled (foldl on_completed acc done) still_pending;
      completed = completed ++ done;
      cancelled = still_pending;
      unreported = [];
      swept = [];
      interrupted = if no_tasks still_pending then false else loop.gather_interrupted still_pending;
    }
  ]

  pub after_loop : Bool → A → List Task → List Task → Fanned Task A
  unfolding grace_window
  after_loop true acc completed pending = cut_off acc completed pending
  after_loop false acc completed [] = record {
    acc = acc;
    completed = completed;
    cancelled = [];
    unreported = [];
    swept = [];
    interrupted = false;
  }
  after_loop false acc completed (t ∷ ts) = grace_window acc completed (t ∷ ts)

  -- [task for task in tasks if not task.done()]
  pub leftover : List Task → List Task
  leftover [] = []
  leftover (t ∷ ts) = let rest = leftover ts in if not (loop.done t) then t ∷ rest else rest

  -- The `finally` block. A cancellation at its own gather is suppressed.
  pub sweep : List Task → Fanned Task A → Fanned Task A
  unfolding leftover
  sweep tasks out = record out { swept = leftover tasks }

  -- Each round of the loop completes a task, so as many rounds as tasks are enough.
  unfoldable pub fan_out_to_committee : List Task → A → Option (Fanned Task A)
  unfolding wait_loop after_loop sweep
  fan_out_to_committee tasks start = elim (wait_loop (length tasks) 0 tasks start []) [
    | none ↦ none
    | some w ↦ some (sweep tasks (after_loop w.interrupted w.acc w.completed w.pending))
  ]
