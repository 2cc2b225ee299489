-- ===== src/NativeRead/Reconstruct/Ends.antt =====
-- reconstruct_blob of pytusk/core/native_read/reconstruct.py ends.
use pytusk.Prelude.{
  ℕ, ◌≡◌, refl, String, Bool, Option, some, List, [], length, leb, Bool-cases, inl, inr,
}
use pytusk.Prelude.Bytes.{Bytes}
use pytusk.Errors.{Result, ok, err, Result-cases}
use pytusk.Redstuff.Codec.{Axis, Native, VerifiedBlobMetadata}
use pytusk.Committee.Members.{WalrusCommitteeMember, WalrusCommittee}
use pytusk.CommitteeFanout.{EventLoop, EventLoopLaws}
use pytusk.NativeRead.Fetch.{fetch_slivers_attributed}
use pytusk.NativeRead.Fetch.Outcome.{fetch_slivers_attributed-Outcome}
use pytusk.NativeRead.Reconstruct.{
  Attributed, decode_attributed, partition_by_verification, is_empty, is_decode_error, retried,
  recovered, decoded_or_recovered, reconstruct_blob,
}

module _ {Pair Handle : Type 0} (native : Native Pair Handle)
    (metadata : VerifiedBlobMetadata Handle) (axis : Axis)
    (read_sliver read_again : WalrusCommitteeMember → Bytes → ℕ → Axis → Option Bytes)
    (loop loop_again : EventLoop WalrusCommitteeMember) (laws : EventLoopLaws loop)
    (laws_again : EventLoopLaws loop_again) (committee : WalrusCommittee) (blob_id : Bytes)
    (threshold : ℕ) (verify : Bool) where
  abbrev Ends : Option (Result (Bytes × ℕ)) → Type 0
  Ends out = (r : Result (Bytes × ℕ)) × (out ≡ some r)

  retried-Ends :
      (verified : Attributed) (indicted : List String)
      → Ends (
          retried native metadata axis read_sliver read_again loop loop_again committee blob_id
            threshold verify verified indicted)
  unfolding retried
  retried-Ends verified indicted =
      let (r, e, is) =
        fetch_slivers_attributed-Outcome read_again blob_id axis loop_again laws_again committee
          threshold indicted in
      by_fetch r e
    where
      by_fetch :
          (r : Result Attributed)
          → fetch_slivers_attributed read_again blob_id axis loop_again committee threshold indicted
            ≡ some r
          → Ends (
              retried native metadata axis read_sliver read_again loop loop_again committee blob_id
                threshold verify verified indicted)
      by_fetch (err e) h = (err e, rw (h, retried) refl)
      by_fetch (ok replacements) h = rw (h, retried) (_, refl)

  recovered-Ends :
      (verified : Attributed) (indicted : List String)
      → Ends (
          recovered native metadata axis read_sliver read_again loop loop_again committee blob_id
            threshold verify
            (verified, indicted))
  unfolding recovered
  recovered-Ends verified indicted = elim (Bool-cases (is_empty native metadata axis indicted)) [
    | inl y ↦ rw (y, recovered) (_, refl)
    | inr n ↦ elim (Bool-cases (leb threshold (length verified))) [
      | inl y ↦ rw (n, recovered) (rw y (_, refl))
      | inr m ↦ let (r, e) = retried-Ends verified indicted in (r, rw (n, recovered) (rw m e))
    ]
  ]

  handled-Ends :
      (attributed : Attributed) (r : Result (Bytes × ℕ))
      → Ends (
          decoded_or_recovered native metadata axis read_sliver read_again loop loop_again committee
            blob_id threshold verify attributed r)
  unfolding decoded_or_recovered
  handled-Ends attributed (ok decoded) = (_, refl)
  handled-Ends attributed (err e) = elim (Bool-cases (is_decode_error e)) [
    | inr n ↦ rw n (_, refl)
    | inl y ↦ elim (Result-cases (partition_by_verification native metadata axis attributed)) [
      | inl (raised, p) ↦ rw y (rw p (_, refl))
      | inr ((verified, indicted), p) ↦
          let (r, h) = recovered-Ends verified indicted in (r, rw y (rw p h))
    ]
  ]

  -- Both fan-outs end, and so does the reconstruction.
  pub reconstruct_blob-Ends : Ends (
      reconstruct_blob native metadata axis read_sliver read_again loop loop_again committee blob_id
        threshold verify)
  unfolding reconstruct_blob
  reconstruct_blob-Ends =
      let (r, e, is) =
        fetch_slivers_attributed-Outcome read_sliver blob_id axis loop laws committee threshold
          [] in
      by_fetch r e
    where
      by_fetch :
          (r : Result Attributed)
          → fetch_slivers_attributed read_sliver blob_id axis loop committee threshold [] ≡ some r
          → Ends (
              reconstruct_blob native metadata axis read_sliver read_again loop loop_again committee
                blob_id threshold verify)
      by_fetch (err e) h = (err e, rw (h, reconstruct_blob) refl)
      by_fetch (ok attributed) h =
          let (r, e) =
            handled-Ends attributed (decode_attributed native metadata axis verify attributed) in
          (r, rw (h, reconstruct_blob) e)
