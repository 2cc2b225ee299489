-- ===== src/Pipelines/Read/Decoded.antt =====
-- What read_blob_native (pytusk/core/pipelines/read.py) ends with.
use pytusk.Prelude.{
  ℕ, ◌≡◌, ◌≢◌, refl, subst, Bool, true, false, Option, some, length, ◌==◌, ==_iff, Bool-cases, inl,
  inr,
}
use pytusk.Prelude.Int.{pos_part}
use pytusk.Prelude.Bytes.{Bytes}
use pytusk.Errors.{
  Error, Result, ok, err, key_error, runtime_error, type_error, value_error, chain_context,
  native_error, native_read,
}
use pytusk.Redstuff.Codec.{Axis, primary, secondary, VerifiedBlobMetadata}
use pytusk.Redstuff.Sizes.{source_symbol_counts}
use pytusk.Committee.Members.{WalrusCommittee}
use pytusk.CommitteeFanout.{EventLoopLaws}
use pytusk.NativeRead.Metadata.{IsAnswered, fetch_verified_metadata-IsAnswered}
use pytusk.NativeRead.Reconstruct.Decoded.{IsDecoded, reconstruct_blob-IsDecoded}
use pytusk.NativeRead.Reconstruct.Ends.{reconstruct_blob-Ends}
use pytusk.Pipelines.Read.{
  NativeReadResult, ReadWorld, as_read_error, threshold_of, metadata_from, content_from,
  from_content, from_metadata, from_committee, read_blob_native,
}

-- The decoder needs as many slivers of an axis as the axis has source symbols.
abbrev pub needed : Axis → ℕ → ℕ
needed primary n_shards = (source_symbol_counts n_shards).0
needed secondary n_shards = (source_symbol_counts n_shards).1

-- What Python's `except (KeyError, RuntimeError, TypeError, ValueError)` catches.
abbrev pub is_caught : Error → Bool
is_caught key_error = true
is_caught runtime_error = true
is_caught type_error = true
is_caught value_error = true
is_caught (native_error code) = true
is_caught chain_context = true
is_caught _ = false

-- The exception that a read raises for one of the committee's.
pub data RaisedFor (e : Error) : Error → Type 0 where
  caught : is_caught e ≡ true → RaisedFor e native_read
  passed : is_caught e ≡ false → RaisedFor e e

as_read_error-RaisedFor : (e : Error) → RaisedFor e (as_read_error e)
as_read_error-RaisedFor key_error = caught refl
as_read_error-RaisedFor runtime_error = caught refl
as_read_error-RaisedFor type_error = caught refl
as_read_error-RaisedFor value_error = caught refl
as_read_error-RaisedFor (native_error code) = caught refl
as_read_error-RaisedFor chain_context = caught refl
as_read_error-RaisedFor _ = passed refl

threshold-needed : (axis : Axis) (n_shards : ℕ) → threshold_of axis n_shards ≡ needed axis n_shards
threshold-needed primary n_shards = refl
threshold-needed secondary n_shards = refl

module _ {Pair Handle : Type 0} (world : ReadWorld Pair Handle) (laws : EventLoopLaws world.waits)
    (laws_again : EventLoopLaws world.waits_again) (id : Bytes) (axis : Axis) (verify : Bool) where
  -- The ends of a read: an error of one of its stages, or content.
  pub data Read : Result NativeReadResult → Type 0 where
    not_an_id : length id ≢ 32 → Read (err value_error)
    no_committee :
        (e raised : Error)
        → length id ≡ 32
        → world.chain_committee ≡ err e
        → RaisedFor e raised
        → Read (err raised)
    no_metadata :
        (committee : WalrusCommittee) (e : Error)
        → length id ≡ 32
        → world.chain_committee ≡ ok committee
        → metadata_from world id axis verify committee ≡ err e
        → Read (err e)
    not_decoded :
        (committee : WalrusCommittee) (metadata : VerifiedBlobMetadata Handle) (e : Error)
        → length id ≡ 32
        → world.chain_committee ≡ ok committee
        → metadata_from world id axis verify committee ≡ ok metadata
        → content_from world id axis verify committee metadata ≡ some (err e)
        → Read (err e)
    decoded :
        (committee : WalrusCommittee) (metadata : VerifiedBlobMetadata Handle) (content : Bytes)
        (count : ℕ) (result : NativeReadResult)
        → length id ≡ 32
        → world.chain_committee ≡ ok committee
        → IsAnswered world.native world.read_metadata id
            (pos_part committee.n_shards)
            committee.members
            world.start
            metadata
        → IsDecoded world.native metadata axis world.read_sliver world.read_again world.waits
            world.waits_again laws laws_again committee id
            (needed axis (pos_part committee.n_shards))
            verify
            content
            count
        → result.content ≡ content
        → result.slivers_used ≡ count
        → result.blob_id ≡ id
        → result.epoch ≡ committee.epoch
        → result.axis ≡ axis
        → Read (ok result)

  abbrev Ends : Option (Result NativeReadResult) → Type 0
  Ends out = (r : Result NativeReadResult) × (out ≡ some r) × Read r

  module _ (sized : length id ≡ 32) (committee : WalrusCommittee)
      (resolved : world.chain_committee ≡ ok committee) where
    by_content :
        (metadata : VerifiedBlobMetadata Handle) (r : Result (Bytes × ℕ))
        → metadata_from world id axis verify committee ≡ ok metadata
        → content_from world id axis verify committee metadata ≡ some r
        → Ends (from_content world id axis verify committee (some r))
    unfolding from_content
    by_content metadata (err e) m c = (_, refl, not_decoded committee metadata e sized resolved m c)
    by_content metadata (ok (content, count)) m c = (
      _,
      refl,
      decoded committee metadata content count _ sized resolved
          (fetch_verified_metadata-IsAnswered world.native world.read_metadata id
            (pos_part committee.n_shards) committee.members world.start m)
          (subst
            (λ n.
              IsDecoded world.native metadata axis world.read_sliver world.read_again world.waits
                world.waits_again laws laws_again committee id n verify content count)
            (threshold-needed axis (pos_part committee.n_shards))
            (reconstruct_blob-IsDecoded world.native metadata axis world.read_sliver
              world.read_again world.waits world.waits_again laws laws_again committee id
              (threshold_of axis (pos_part committee.n_shards)) verify c))
          refl refl refl refl refl,
    )

    by_metadata :
        (m : Result (VerifiedBlobMetadata Handle))
        → metadata_from world id axis verify committee ≡ m
        → Ends (from_metadata world id axis verify committee m)
    unfolding from_metadata
    by_metadata (err e) h = (_, refl, no_metadata committee e sized resolved h)
    by_metadata (ok metadata) h =
        let (r, c) =
          reconstruct_blob-Ends world.native metadata axis world.read_sliver world.read_again
            world.waits world.waits_again laws laws_again committee id
            (threshold_of axis (pos_part committee.n_shards)) verify in
        rw c (by_content metadata r h c)

  by_committee :
      (m : Result WalrusCommittee)
      → length id ≡ 32
      → world.chain_committee ≡ m
      → Ends (from_committee world id axis verify m)
  unfolding from_committee
  by_committee (err e) sized h = (_, refl, no_committee e _ sized h (as_read_error-RaisedFor e))
  by_committee (ok committee) sized h =
      by_metadata sized committee h (metadata_from world id axis verify committee) refl

  -- Under the laws of both event loops, whatever the chain and the nodes answer: a read ends. It raises a
  -- ValueError for an ID that has not 32 bytes; for an error of the committee a NativeReadError if it is a KeyError,
  -- a RuntimeError, a TypeError or a ValueError (a ChainContextError and what the extension raises are), and that
  -- very error otherwise; or the error of the metadata or of the reconstruction. Otherwise the content that it
  -- returns is decoded from distinct slivers, as many as the count says and no fewer than the axis needs for
  -- the committee's shard count, with metadata that verify, are those of the blob asked for and came from a
  -- member; and the result has the blob's ID, the committee's epoch and the axis.
  pub read_blob_native-Read :
      (r : Result NativeReadResult) × (read_blob_native world id axis verify ≡ some r) × Read r
  unfolding read_blob_native
  read_blob_native-Read = elim (Bool-cases (length id == 32)) [
    | inl y ↦ rw y (by_committee world.chain_committee ((==_iff _ _).0 y) refl)
    | inr n ↦ rw n (_, refl, not_an_id (λ e. cc (n, (==_iff _ _).1 e)))
  ]
