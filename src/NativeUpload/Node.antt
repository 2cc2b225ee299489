-- ===== src/NativeUpload/Node.antt =====
-- _upload_node and _outcome_from_task of pytusk/core/native_upload/fanout.py. What the node answers to each
-- attempt is the parameter `client`, what each asyncio.wait for the node's PUTs returns is `loop`. The
-- semaphores only delay requests; the counters of a PUT, which nothing here reads, start at zero.

pub mod Stored
use pytusk.Prelude.{
  ℕ, zero, suc, ◌+◌, String, Bool, true, false, Option, none, some, List, [], ◌∷◌, length,
  get_elem?,
}
use pytusk.Prelude.Bytes.{Bytes}
use pytusk.Errors.{Error, Result, ok, err, index_error, cancelled, ◌>>=◌}
use pytusk.Redstuff.Codec.{Axis, primary, secondary, EncodedBlob}
use pytusk.Committee.Members.{WalrusCommitteeMember, WalrusCommittee, position_of}
use pytusk.CommitteeFanout.{EventLoop}
use pytusk.NativeUpload.Retry.{
  Response, Put, done, failed, thrown, FanoutProgress, put_metadata, put_sliver,
}

-- RedstuffSliverPair of the extension, as far as it is used.
pub record SliverPair : Type 0 where
  pub sliver_pair_index : ℕ
  pub primary_data : Bytes
  pub secondary_data : Bytes

-- An entry of put_specs.
pub record PutSpec : Type 0 where
  pub sliver_pair_index : ℕ
  pub sliver_type : Axis
  pub data_bytes : Bytes

-- The answer of a node to the n-th attempt of a WriteMetadata and of a WriteSliver.
pub record ExecuteClient : Type 0 where
  pub write_metadata : WalrusCommitteeMember → Bytes → Bytes → ℕ → Response
  pub write_sliver : WalrusCommitteeMember → Bytes → PutSpec → ℕ → Response

-- The reasons of an outcome; the source joins them into one string.
pub data Reason : Type 0 where
  metadata_reason put_reason exception_reason : String → Reason
  error_reason : Error → Reason
  unfinished_reason straggler_reason : Reason

pub record NodeUploadOutcome : Type 0 where
  pub node_id : String
  pub position : ℕ
  pub weight : ℕ
  pub succeeded : Bool
  pub reason : Option Reason

-- What task.result() of the node's task does: it returns an outcome, or raises.
pub data NodeTask : Type 0 where
  returned : NodeUploadOutcome → NodeTask
  raised : Reason → NodeTask

-- How the wait loop over the node's PUTs ends.
pub data PutsEnd : Type 0 where
  all_done interrupted unfinished : PutsEnd
  first_failed : Reason → PutsEnd

abbrev pub or_raised : Result NodeUploadOutcome → NodeTask
or_raised (ok outcome) = returned outcome
or_raised (err e) = raised (error_reason e)

abbrev pub is_none : Option Reason → Bool
is_none none = true
is_none (some reason) = false

-- put_specs, in the order of the member's shards.
unfoldable pub put_specs : List SliverPair → List ℕ → Result (List PutSpec)
put_specs slivers [] = ok []
put_specs slivers (shard_index ∷ shards) = elim (get_elem? slivers shard_index) [
  | none ↦ err index_error
  | some pair ↦ do
    specs ← put_specs slivers shards
    ok (
        record {
          sliver_pair_index = pair.sliver_pair_index;
          sliver_type = primary;
          data_bytes = pair.primary_data;
        }
        ∷ record {
          sliver_pair_index = pair.sliver_pair_index;
          sliver_type = secondary;
          data_bytes = pair.secondary_data;
        }
        ∷ specs)
]

abbrev pub no_progress : FanoutProgress
no_progress = record { puts_in_flight = 0; puts_completed = 0; puts_failed = 0 }

-- The outcome that _upload_node builds, with this reason.
abbrev pub outcome_with : ℕ → WalrusCommitteeMember → Option Reason → NodeUploadOutcome
outcome_with position member reason = record {
  node_id = member.node_id;
  position = position;
  weight = length member.shard_indices;
  succeeded = is_none reason;
  reason = reason;
}

module _ (committee : WalrusCommittee) where
  unfoldable pub node_outcome : WalrusCommitteeMember → Option Reason → Result NodeUploadOutcome
  node_outcome member reason = do
    position ← position_of committee member.node_id
    ok (outcome_with position member reason)

  abbrev pub after_puts : WalrusCommitteeMember → PutsEnd → NodeTask
  after_puts member all_done = or_raised (node_outcome member none)
  after_puts member (first_failed reason) = or_raised (node_outcome member (some reason))
  after_puts member interrupted = raised (error_reason cancelled)
  after_puts member unfinished = raised unfinished_reason

  -- _outcome_from_task
  unfoldable pub outcome_from_task : WalrusCommitteeMember → NodeTask → Result NodeUploadOutcome
  unfolding node_outcome
  outcome_from_task member (returned outcome) = ok outcome
  outcome_from_task member (raised reason) = node_outcome member (some reason)

module _ (client : ExecuteClient) (max_retries : ℕ) (encoded : EncodedBlob SliverPair) where
  unfoldable pub metadata_put : WalrusCommitteeMember → Put
  metadata_put member =
      put_metadata (client.write_metadata member encoded.blob_id encoded.metadata_bcs) max_retries

  unfoldable pub sliver_put : WalrusCommitteeMember → PutSpec → Put
  sliver_put member spec =
      (put_sliver (client.write_sliver member encoded.blob_id spec) max_retries no_progress).0

  -- The loop over the tasks that a wait found done: the first failed or raised one ends it.
  unfoldable pub failed_reason : WalrusCommitteeMember → List PutSpec → Option Reason
  failed_reason member [] = none
  failed_reason member (spec ∷ specs) =
      let rest = failed_reason member specs in
      elim (sliver_put member spec) [
        | done ↦ rest
        | failed reason ↦ some (put_reason reason)
        | thrown why ↦ some (exception_reason why)
      ]

  module _ (loop : WalrusCommitteeMember → EventLoop PutSpec) where
    -- `while pending: …` on fuel.
    pub puts_loop : WalrusCommitteeMember → ℕ → ℕ → List PutSpec → PutsEnd
    puts_loop member fuel k [] = all_done
    puts_loop member zero k (spec ∷ specs) = unfinished
    puts_loop member (suc fuel) k (spec ∷ specs) =
        elim ((loop member).first_completed k (spec ∷ specs)) [
          | none ↦ interrupted
          | some (finished, pending) ↦
              let again = puts_loop member fuel (k + 1) pending in
              elim (failed_reason member finished) [
                | some reason ↦ first_failed reason
                | none ↦ again
              ]
        ]

    module _ (committee : WalrusCommittee) where
      -- Each round of the loop finds a PUT done, so as many rounds as PUTs are enough.
      upload_slivers_of : WalrusCommitteeMember → Result (List PutSpec) → NodeTask
      unfolding puts_loop node_outcome
      upload_slivers_of member (err e) = raised (error_reason e)
      upload_slivers_of member (ok specs) =
          after_puts committee member (puts_loop member (length specs) 0 specs)

      unfoldable pub upload_node : WalrusCommitteeMember → NodeTask
      unfolding node_outcome upload_slivers_of
      upload_node member = elim (metadata_put member) [
        | failed reason ↦ or_raised (node_outcome committee member (some (metadata_reason reason)))
        | thrown why ↦ raised (exception_reason why)
        | done ↦ upload_slivers_of member (put_specs encoded.slivers member.shard_indices)
      ]
