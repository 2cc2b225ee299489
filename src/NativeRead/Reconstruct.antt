-- ===== src/NativeRead/Reconstruct.antt =====
-- pytusk/core/native_read/reconstruct.py. The two fan-outs meet their own responses and event loops. The cap
-- on the size of a response is left out.
pub mod Slivers
pub mod Decoded
pub mod Ends
use pytusk.Prelude.{
  ℕ, String, Bool, true, false, Option, none, some, List, [], ◌∷◌, ◌++◌, map, length, leb,
  if◌then◌else◌,
}
use pytusk.Prelude.Bytes.{Bytes}
use pytusk.Errors.{Error, Result, ok, err, blob_decode, sliver_verification, ◌>>=◌}
use pytusk.Redstuff.Codec.{Axis, Native, VerifiedBlobMetadata, decode_blob, verify_sliver}
use pytusk.Committee.Members.{WalrusCommitteeMember, WalrusCommittee}
use pytusk.CommitteeFanout.{EventLoop}
use pytusk.NativeRead.Fetch.{sliver_of, contains_bytes, contains_str, fetch_slivers_attributed}

abbrev pub Attributed : Type 0
Attributed = List (Bytes × String)

-- except BlobDecodeError
abbrev pub is_decode_error : Error → Bool
is_decode_error blob_decode = true
is_decode_error _ = false

-- except SliverVerificationError
abbrev pub is_sliver_error : Error → Bool
is_sliver_error sliver_verification = true
is_sliver_error _ = false

-- An entry joins the verified ones, or its node the indicted ones.
abbrev pub placed : Bool → Bytes × String → Attributed → List String → Attributed × List String
placed true entry verified indicted = (entry ∷ verified, indicted)
placed false (sliver, node_id) verified indicted = (verified, node_id ∷ indicted)

-- The loop over `second`, which appends the unseen entries.
pub unseen : List Bytes → Attributed → Attributed
unseen seen [] = []
unseen seen ((sliver, node_id) ∷ rest) =
    let skipped = unseen seen rest in
    let kept = (sliver, node_id) ∷ unseen (sliver ∷ seen) rest in
    if contains_bytes sliver seen then skipped else kept

unfoldable pub merge_distinct : Attributed → Attributed → Attributed
unfolding unseen
merge_distinct first second = first ++ unseen (map sliver_of first) second

module _ {Pair Handle : Type 0} (native : Native Pair Handle)
    (metadata : VerifiedBlobMetadata Handle) (axis : Axis) where
  unfoldable pub decode_attributed : Bool → Attributed → Result (Bytes × ℕ)
  decode_attributed verify attributed = do
    content ← decode_blob native (map sliver_of attributed) metadata axis verify
    ok (content, length attributed)

  -- Whether the sliver verified; any other error goes on.
  pub usable : Result (Unit {0}) → Result Bool
  usable (ok _) = ok true
  usable (err e) = if is_sliver_error e then ok false else err e

  -- The slivers that verify, and the nodes that served the others; the set of nodes is a list.
  unfoldable pub partition_by_verification : Attributed → Result (Attributed × List String)
  unfolding usable
  partition_by_verification [] = ok ([], [])
  partition_by_verification ((sliver, node_id) ∷ rest) = do
    good ← usable (verify_sliver native sliver metadata axis)
    (verified, indicted) ← partition_by_verification rest
    ok (placed good (sliver, node_id) verified indicted)

  abbrev pub is_empty : List String → Bool
  is_empty [] = true
  is_empty (x ∷ xs) = false

  module _ (read_sliver read_again : WalrusCommitteeMember → Bytes → ℕ → Axis → Option Bytes)
      (loop loop_again : EventLoop WalrusCommitteeMember) (committee : WalrusCommittee)
      (blob_id : Bytes) (threshold : ℕ) (verify : Bool) where
    -- The retry, without the indicted nodes.
    pub retried : Attributed → List String → Option (Result (Bytes × ℕ))
    unfolding merge_distinct
    retried verified indicted =
        elim (fetch_slivers_attributed read_again blob_id axis loop_again committee threshold
          indicted) [
            | none ↦ none
            | some (err e) ↦ some (err e)
            | some (ok replacements) ↦
                some (decode_attributed verify (merge_distinct verified replacements))
          ]

    -- `except BlobDecodeError`, with the parted slivers.
    pub recovered : Attributed × List String → Option (Result (Bytes × ℕ))
    unfolding retried
    recovered (verified, indicted) =
        let retry = retried verified indicted in
        let enough = decode_attributed verify verified in
        if is_empty indicted
        then some (err blob_decode)
        else if leb threshold (length verified)
        then some enough
        else retry

    pub decoded_or_recovered : Attributed → Result (Bytes × ℕ) → Option (Result (Bytes × ℕ))
    unfolding recovered
    decoded_or_recovered attributed (ok decoded) = some (ok decoded)
    decoded_or_recovered attributed (err e) =
        let handled : Option (Result (Bytes × ℕ)) = elim (partition_by_verification attributed) [
          | err raised ↦ some (err raised)
          | ok parted ↦ recovered parted
        ] in
        if is_decode_error e then handled else some (err e)

    unfoldable pub reconstruct_blob : Option (Result (Bytes × ℕ))
    unfolding decoded_or_recovered
    reconstruct_blob =
        elim (fetch_slivers_attributed read_sliver blob_id axis loop committee threshold []) [
          | none ↦ none
          | some (err e) ↦ some (err e)
          | some (ok attributed) ↦
              decoded_or_recovered attributed (decode_attributed verify attributed)
        ]
