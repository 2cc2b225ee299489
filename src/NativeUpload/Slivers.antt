-- ===== src/NativeUpload/Slivers.antt =====
-- upload_slivers of pytusk/core/native_upload/fanout.py. The dicts are association lists in the order of
-- insertion; n_shards is not negative. A callback that raises ends the fan-out: the accumulator is a
-- result, and an error stops it. The write permits only delay PUTs; they are a definition of their own.
pub mod Targets
pub mod Permits
pub mod Outcomes
pub mod Quorum
use text.Mathlib.Text.{◌==◌ as str_eq}
use pytusk.Prelude.{
  ℕ, zero, suc, ◌+◌, ◌/◌, String, Bool, true, false, Option, none, some, List, [], ◌∷◌, ◌++◌,
  length, ltb, leb, min, max, if◌then◌else◌,
}
use pytusk.Prelude.Int.{pos_part}
use pytusk.Errors.{
  Result, ok, err, index_error, key_error, cancelled, sliver_upload, raise_if, ◌>>=◌, ◌>>◌,
}
use pytusk.Redstuff.Codec.{EncodedBlob}
use pytusk.Certification.Quorum.{min_weight_for_quorum}
use pytusk.Committee.Members.{WalrusCommitteeMember, WalrusCommittee, member_for_shard}
use pytusk.CommitteeFanout.{EventLoop, Fanned, fan_out_to_committee}
use pytusk.NativeUpload.Node.{
  SliverPair, PutSpec, ExecuteClient, straggler_reason, NodeUploadOutcome, node_outcome,
  upload_node, outcome_from_task,
}

pub record FanoutReport : Type 0 where
  pub outcomes : List NodeUploadOutcome
  pub weight_succeeded : ℕ
  pub n_shards : ℕ

-- The positions of the outcomes that succeeded.
abbrev positions_in : List NodeUploadOutcome → List ℕ
positions_in [] = []
positions_in (o ∷ os) = if o.succeeded then o.position ∷ positions_in os else positions_in os

unfoldable pub succeeded_positions : FanoutReport → List ℕ
succeeded_positions report = positions_in report.outcomes

-- The variables that `_fold` and `_cancelled` change.
pub record Uploads : Type 0 where
  pub outcomes : List NodeUploadOutcome
  pub weight_succeeded : ℕ

abbrev pub no_uploads : Uploads
no_uploads = record { outcomes = []; weight_succeeded = 0 }

-- max_bytes_in_flight // max(sliver_size, 1), capped by max_concurrent_writes, and one at least.
unfoldable pub effective_write_permits : ℕ → ℕ → ℕ → ℕ
effective_write_permits max_concurrent_writes max_bytes_in_flight sliver_size =
    max 1 (min max_concurrent_writes (max_bytes_in_flight / max sliver_size 1))

-- shards_by_node.setdefault(node_id, []).append(shard_index)
unfoldable pub add_shard : String → ℕ → List (String × List ℕ) → List (String × List ℕ)
add_shard node_id shard_index [] = (node_id, shard_index ∷ []) ∷ []
add_shard node_id shard_index ((n, shards) ∷ rest) =
    if str_eq n node_id
    then (n, shards ++ shard_index ∷ []) ∷ rest
    else (n, shards) ∷ add_shard node_id shard_index rest

-- The loop over the shards from `shard_index` on, of which `left` are left.
pub group_shards :
    WalrusCommittee → ℕ → ℕ → List (String × List ℕ) → Result (List (String × List ℕ))
unfolding add_shard
group_shards committee zero shard_index grouped = ok grouped
group_shards committee (suc left) shard_index grouped = do
  member ← member_for_shard committee shard_index
  group_shards committee left (shard_index + 1) (add_shard member.node_id shard_index grouped)

unfoldable pub shards_by_node : WalrusCommittee → Result (List (String × List ℕ))
unfolding group_shards
shards_by_node committee = group_shards committee (pos_part committee.n_shards) 0 []

-- members_by_node_id: the last member with the node ID.
pub member_by_node_id : String → List WalrusCommitteeMember → Option WalrusCommitteeMember
member_by_node_id node_id [] = none
member_by_node_id node_id (m ∷ ms) = elim (member_by_node_id node_id ms) [
  | some found ↦ some found
  | none ↦ if str_eq m.node_id node_id then some m else none
]

-- The member of each task, in the order in which the tasks are created.
pub members_of :
    List WalrusCommitteeMember → List (String × List ℕ) → Result (List WalrusCommitteeMember)
unfolding member_by_node_id
members_of members [] = ok []
members_of members ((node_id, shards) ∷ rest) = elim (member_by_node_id node_id members) [
  | none ↦ err key_error
  | some member ↦ do others ← members_of members rest; ok (member ∷ others)
]

unfoldable pub targets : WalrusCommittee → Result (List WalrusCommitteeMember)
unfolding members_of
targets committee = do grouped ← shards_by_node committee; members_of committee.members grouped

abbrev pub is_enough : ℕ → Result Uploads → Bool
is_enough required_weight (ok uploads) = leb required_weight uploads.weight_succeeded
is_enough required_weight (err e) = true

abbrev pub add_outcome : NodeUploadOutcome → Uploads → Uploads
add_outcome outcome uploads = record {
  outcomes = uploads.outcomes ++ outcome ∷ [];
  weight_succeeded =
      if outcome.succeeded
      then uploads.weight_succeeded + outcome.weight
      else uploads.weight_succeeded;
}

-- The end of upload_slivers, after the fan-out.
unfoldable pub reported :
    WalrusCommittee → Fanned WalrusCommitteeMember (Result Uploads) → Result FanoutReport
reported committee out = do
  raise_if out.interrupted cancelled
  uploads ← out.acc
  raise_if (ltb uploads.weight_succeeded (min_weight_for_quorum (pos_part committee.n_shards)))
      sliver_upload
  ok (record {
    outcomes = uploads.outcomes;
    weight_succeeded = uploads.weight_succeeded;
    n_shards = pos_part committee.n_shards;
  })

abbrev pub first_sliver : List SliverPair → Result (Unit {0})
first_sliver [] = err index_error
first_sliver (pair ∷ pairs) = ok tt

-- `_cancelled`
unfoldable pub outcome_cancelled :
    WalrusCommittee → Result Uploads → WalrusCommitteeMember → Result Uploads
outcome_cancelled committee acc member = do
  uploads ← acc
  outcome ← node_outcome committee member (some straggler_reason)
  ok (add_outcome outcome uploads)

module _ (client : ExecuteClient) (max_retries : ℕ) (encoded : EncodedBlob SliverPair)
    (puts : WalrusCommitteeMember → EventLoop PutSpec) (committee : WalrusCommittee) where
  -- `_fold`
  unfoldable pub fold_completed : Result Uploads → WalrusCommitteeMember → Result Uploads
  fold_completed acc member = do
    uploads ← acc
    outcome ←
        outcome_from_task committee member
          (upload_node client max_retries encoded puts committee member)
    ok (add_outcome outcome uploads)

  module _ (loop : EventLoop WalrusCommitteeMember) where
    -- `none` stands for a fan-out that does not end.
    pub fan_out_slivers : Result (List WalrusCommitteeMember) → Option (Result FanoutReport)
    unfolding reported fold_completed outcome_cancelled
    fan_out_slivers (err e) = some (err e)
    fan_out_slivers (ok members) =
        elim (fan_out_to_committee loop fold_completed (outcome_cancelled committee)
          (is_enough (min_weight_for_quorum (pos_part committee.n_shards))) members
          (ok no_uploads)) [ none ↦ none | some out ↦ some (reported committee out) ]

    unfoldable pub upload_slivers : Option (Result FanoutReport)
    unfolding fan_out_slivers targets
    upload_slivers = fan_out_slivers (first_sliver encoded.slivers >> targets committee)
