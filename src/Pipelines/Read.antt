-- ===== src/Pipelines/Read.antt =====
-- read_blob_native of pytusk/core/pipelines/read.py. The record `ReadWorld` has what the chain and the nodes
-- answer; the two fan-outs of a reconstruction meet their own responses and event loops.
pub mod Decoded
mod Runs
use pytusk.Prelude.{ℕ, Bool, true, false, Option, none, some, not, length, ◌==◌, if◌then◌else◌}
use pytusk.Prelude.Int.{ℤ, pos_part}
use pytusk.Prelude.Bytes.{Bytes}
use pytusk.Errors.{
  Error, Result, ok, err, key_error, runtime_error, type_error, value_error, chain_context,
  native_error, native_read,
}
use pytusk.Redstuff.Codec.{Axis, primary, secondary, Native, VerifiedBlobMetadata}
use pytusk.Redstuff.Sizes.{source_symbol_counts}
use pytusk.Committee.Members.{WalrusCommitteeMember, WalrusCommittee}
use pytusk.CommitteeFanout.{EventLoop}
use pytusk.NativeRead.Metadata.{fetch_verified_metadata}
use pytusk.NativeRead.Reconstruct.{reconstruct_blob}

pub record NativeReadResult : Type 0 where
  pub content : Bytes
  pub blob_id : Bytes
  pub epoch : ℤ
  pub axis : Axis
  pub slivers_used : ℕ

pub record ReadWorld (Pair Handle : Type 0) : Type 0 where
  pub native : Native Pair Handle
  pub chain_committee : Result WalrusCommittee
  pub read_metadata : WalrusCommitteeMember → Bytes → Option Bytes
  pub start : ℕ
  pub read_sliver : WalrusCommitteeMember → Bytes → ℕ → Axis → Option Bytes
  pub read_again : WalrusCommitteeMember → Bytes → ℕ → Axis → Option Bytes
  pub waits : EventLoop WalrusCommitteeMember
  pub waits_again : EventLoop WalrusCommitteeMember

-- except (KeyError, RuntimeError, TypeError, ValueError): raise NativeReadError. ChainContextError is a
-- RuntimeError, and what the extension raises a ValueError.
abbrev pub as_read_error : Error → Error
as_read_error key_error = native_read
as_read_error runtime_error = native_read
as_read_error type_error = native_read
as_read_error value_error = native_read
as_read_error chain_context = native_read
as_read_error (native_error code) = native_read
as_read_error e = e

-- primary_threshold if axis == "primary" else secondary_threshold
abbrev pub threshold_of : Axis → ℕ → ℕ
threshold_of primary n_shards = (source_symbol_counts n_shards).0
threshold_of secondary n_shards = (source_symbol_counts n_shards).1

module _ {Pair Handle : Type 0} (world : ReadWorld Pair Handle) (id : Bytes) (axis : Axis)
    (verify : Bool) where
  abbrev pub metadata_from : WalrusCommittee → Result (VerifiedBlobMetadata Handle)
  metadata_from committee =
      fetch_verified_metadata world.native world.read_metadata id (pos_part committee.n_shards)
        committee.members world.start

  abbrev pub content_from :
      WalrusCommittee → VerifiedBlobMetadata Handle → Option (Result (Bytes × ℕ))
  content_from committee metadata =
      reconstruct_blob world.native metadata axis world.read_sliver world.read_again world.waits
        world.waits_again committee id (threshold_of axis (pos_part committee.n_shards)) verify

  abbrev pub read_result : WalrusCommittee → Bytes × ℕ → NativeReadResult
  read_result committee (content, slivers_used) = record {
    content = content;
    blob_id = id;
    epoch = committee.epoch;
    axis = axis;
    slivers_used = slivers_used;
  }

  -- The result of the read, from what reconstruct_blob returns.
  pub from_content :
      WalrusCommittee → Option (Result (Bytes × ℕ)) → Option (Result NativeReadResult)
  from_content committee none = none
  from_content committee (some (err e)) = some (err e)
  from_content committee (some (ok decoded)) = some (ok (read_result committee decoded))

  pub from_metadata :
      WalrusCommittee → Result (VerifiedBlobMetadata Handle) → Option (Result NativeReadResult)
  unfolding from_content
  from_metadata committee (err e) = some (err e)
  from_metadata committee (ok metadata) = from_content committee (content_from committee metadata)

  pub from_committee : Result WalrusCommittee → Option (Result NativeReadResult)
  unfolding from_metadata
  from_committee (err e) = some (err (as_read_error e))
  from_committee (ok committee) = from_metadata committee (metadata_from committee)

  unfoldable pub read_blob_native : Option (Result NativeReadResult)
  unfolding from_committee
  read_blob_native =
      if not (length id == 32) then some (err value_error) else from_committee world.chain_committee
