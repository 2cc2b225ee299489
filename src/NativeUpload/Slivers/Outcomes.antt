-- ===== src/NativeUpload/Slivers/Outcomes.antt =====
-- The outcomes that upload_slivers collects (pytusk/core/native_upload/fanout.py).
use mathlib.Core.List.{foldl, append-nil, append_assoc}
use pytusk.Prelude.{
  ℕ, ◌+◌, ◌≡◌, refl, sym, ap, ap₂, ◌∙◌, Bool, true, false, not, Option, none, some, List, [], ◌∷◌,
  ◌++◌, map, arith, All, ◌⊎◌, inl, inr, if◌then◌else◌,
}
use pytusk.Prelude.Orders.{any, sum_by}
use pytusk.Errors.{Result, ok, err, cancelled}
use pytusk.Redstuff.Codec.{EncodedBlob}
use pytusk.Committee.Members.{WalrusCommitteeMember, WalrusCommittee, position_of}
use pytusk.CommitteeFanout.{EventLoop, EventLoopLaws}
use pytusk.NativeUpload.Node.{
  SliverPair, PutSpec, ExecuteClient, Reason, exception_reason, error_reason, straggler_reason,
  NodeUploadOutcome, NodeTask, raised, outcome_with, node_outcome, upload_node, outcome_from_task,
}
use pytusk.NativeUpload.Node.Stored.{
  IsStored, Uploaded, stored, metadata_failed, sliver_failed, metadata_raised, no_sliver,
  task_cancelled, upload_node-Uploaded,
}
use pytusk.NativeUpload.Slivers.{Uploads, add_outcome, fold_completed, outcome_cancelled}
use pytusk.NativeUpload.Slivers.Targets.{is_member, is_member-placed}

-- The weight that an outcome counts for.
abbrev pub credit : NodeUploadOutcome → ℕ
credit o = if o.succeeded then o.weight else 0

-- An outcome of a member: with its ID, its position and the number of its shards.
abbrev pub IsOf : WalrusCommittee → WalrusCommitteeMember → NodeUploadOutcome → Type 0
IsOf committee member o =
    (position : ℕ) × (reason : Option Reason) × (position_of committee member.node_id ≡ ok position)
    × (o ≡ outcome_with position member reason)

abbrev or_position : Result ℕ → ℕ
or_position (ok position) = position
or_position (err e) = 0

-- The outcome of a straggler.
abbrev pub straggler : WalrusCommittee → WalrusCommitteeMember → NodeUploadOutcome
straggler committee m =
    outcome_with (or_position (position_of committee m.node_id)) m (some straggler_reason)

abbrev pub stray : WalrusCommittee → WalrusCommitteeMember → Bool
stray committee m = not (is_member committee.members m.node_id)

abbrev uploads_of : List NodeUploadOutcome → ℕ → Uploads
uploads_of os weight = record { outcomes = os; weight_succeeded = weight }

abbrev pub with_outcomes : List NodeUploadOutcome → Uploads → Uploads
with_outcomes os uploads = record {
  outcomes = uploads.outcomes ++ os;
  weight_succeeded = uploads.weight_succeeded + sum_by credit os;
}

with_outcomes-first :
    (o : NodeUploadOutcome) (os : List NodeUploadOutcome) (u : Uploads)
    → with_outcomes os (add_outcome o u) ≡ with_outcomes (o ∷ os) u
with_outcomes-first o os u = ap₂ uploads_of (append_assoc u.outcomes (o ∷ []) os) (ground arith)

with_outcomes-none : (u : Uploads) → with_outcomes [] u ≡ u
with_outcomes-none u = ap₂ uploads_of (append-nil u.outcomes) (omega arith)

pub straggler-credit :
    (committee : WalrusCommittee) (ms : List WalrusCommitteeMember)
    → sum_by credit (map (straggler committee) ms) ≡ 0
straggler-credit committee [] = refl
straggler-credit committee (m ∷ ms) = omega (arith, straggler-credit committee ms)

pub sum_by-map :
    (f : WalrusCommitteeMember → NodeUploadOutcome) (ms : List WalrusCommitteeMember)
    → sum_by credit (map f ms) ≡ sum_by (λ m. credit (f m)) ms
sum_by-map f [] = refl
sum_by-map f (m ∷ ms) = omega (arith, sum_by-map f ms)

module _ (client : ExecuteClient) (max_retries : ℕ) (encoded : EncodedBlob SliverPair)
    (puts : WalrusCommitteeMember → EventLoop PutSpec) (committee : WalrusCommittee) where
  -- An outcome of a task: one that has succeeded only if the node has stored everything.
  abbrev pub IsHonest : WalrusCommitteeMember → NodeUploadOutcome → Type 0
  IsHonest member o =
      IsOf committee member o × ((o.succeeded ≡ false) ⊎ IsStored client max_retries encoded member)

  abbrev task : WalrusCommitteeMember → NodeTask
  task m = upload_node client max_retries encoded puts committee m

  task-IsHonest :
      (m : WalrusCommitteeMember)
      → EventLoopLaws (puts m)
      → is_member committee.members m.node_id ≡ true
      → (o : NodeUploadOutcome) × (outcome_from_task committee m (task m) ≡ ok o) × IsHonest m o
  unfolding outcome_from_task node_outcome
  task-IsHonest m laws known =
      let (position, placed) = is_member-placed committee m.node_id known in
      by_end position placed
        (upload_node-Uploaded client max_retries encoded puts committee position m placed laws)
    where
      late :
          (position : ℕ)
          → position_of committee m.node_id ≡ ok position
          → (reason : Reason)
          → (o : NodeUploadOutcome) × (outcome_from_task committee m (raised reason) ≡ ok o)
            × IsHonest m o
      late position placed reason = (
        outcome_with position m (some reason),
        rw placed refl,
        ((position, some reason, placed, refl), inl refl),
      )

      by_end :
          (position : ℕ)
          → position_of committee m.node_id ≡ ok position
          → {end : NodeTask} → Uploaded client max_retries encoded puts position m end
          → (o : NodeUploadOutcome) × (outcome_from_task committee m end ≡ ok o) × IsHonest m o
      by_end position placed (stored is) =
          (outcome_with position m none, refl, ((position, none, placed, refl), inr is))
      by_end position placed (metadata_failed reason e) =
          (_, refl, ((position, _, placed, refl), inl refl))
      by_end position placed (sliver_failed reason specs e bad) =
          (_, refl, ((position, _, placed, refl), inl refl))
      by_end position placed (metadata_raised why e) = late position placed (exception_reason why)
      by_end position placed (no_sliver raises e) = late position placed (error_reason raises)
      by_end position placed task_cancelled = late position placed (error_reason cancelled)

  or_straggler : WalrusCommitteeMember → Result NodeUploadOutcome → NodeUploadOutcome
  or_straggler m (ok o) = o
  or_straggler m (err e) = straggler committee m

  -- The outcome that is made of the task of a member.
  unfoldable pub outcome_made : WalrusCommitteeMember → NodeUploadOutcome
  unfolding or_straggler
  outcome_made m = or_straggler m (outcome_from_task committee m (task m))

  pub outcome_made-IsHonest :
      (m : WalrusCommitteeMember)
      → EventLoopLaws (puts m)
      → is_member committee.members m.node_id ≡ true
      → (outcome_from_task committee m (task m) ≡ ok (outcome_made m)) × IsHonest m (outcome_made m)
  unfolding outcome_made or_straggler
  outcome_made-IsHonest m laws known =
      let (o, e, honest) = task-IsHonest m laws known in (rw e refl, rw e honest)

  pub fold_completed-outcomes :
      ((m : WalrusCommitteeMember) → EventLoopLaws (puts m))
      → (ms : List WalrusCommitteeMember) (u : Uploads) → any (stray committee) ms ≡ false
      → foldl (fold_completed client max_retries encoded puts committee) (ok u) ms
        ≡ ok (with_outcomes (map outcome_made ms) u)
  unfolding fold_completed
  fold_completed-outcomes laws [] u known = ap ok (sym (with_outcomes-none u))
  fold_completed-outcomes laws (m ∷ ms) u known =
      let (e, honest) = outcome_made-IsHonest m (laws m) (ground arith) in
      rw e (
        fold_completed-outcomes laws ms (add_outcome (outcome_made m) u) (ground arith)
        ∙ ap ok (with_outcomes-first (outcome_made m) (map outcome_made ms) u))

  pub outcome_cancelled-straggler :
      (ms : List WalrusCommitteeMember) (u : Uploads)
      → any (stray committee) ms ≡ false
      → foldl (outcome_cancelled committee) (ok u) ms
        ≡ ok (with_outcomes (map (straggler committee) ms) u)
  unfolding outcome_cancelled node_outcome
  outcome_cancelled-straggler [] u known = ap ok (sym (with_outcomes-none u))
  outcome_cancelled-straggler (m ∷ ms) u known =
      let (position, placed) = is_member-placed committee m.node_id (ground arith) in
      let e : node_outcome committee m (some straggler_reason) ≡ ok (straggler committee m) =
        rw (placed, node_outcome) refl in
      rw e (
        outcome_cancelled-straggler ms (add_outcome (straggler committee m) u) (ground arith)
        ∙ ap ok (with_outcomes-first (straggler committee m) (map (straggler committee) ms) u))

  pub outcome_made-All :
      ((m : WalrusCommitteeMember) → EventLoopLaws (puts m))
      → (ms : List WalrusCommitteeMember) → any (stray committee) ms ≡ false
      → All (λ m. IsHonest m (outcome_made m)) ms
  outcome_made-All laws [] known = tt
  outcome_made-All laws (m ∷ ms) known =
      ((outcome_made-IsHonest m (laws m) (ground arith)).1, outcome_made-All laws ms (ground arith))
