-- ===== src/NativeRead/Reconstruct/Decoded.antt =====
-- What reconstruct_blob (pytusk/core/native_read/reconstruct.py) returns.
use mathlib.Core.Option.{some-injective}
use pytusk.Prelude.{
  ℕ, ◌≤◌, ◌≡◌, refl, sym, ap, ◌∙◌, subst, String, Bool, Option, none, some, List, [], map, length,
  length-map, leb, leb→le, arith, Bool-cases, inl, inr,
}
use pytusk.Prelude.Bytes.{Bytes}
use pytusk.Prelude.Int.{pos_part}
use pytusk.Errors.{Result, ok, err, >>=-eq-ok, ok-injective}
use pytusk.Redstuff.Codec.{Axis, Native, VerifiedBlobMetadata, decode_blob}
use pytusk.Committee.Members.{WalrusCommitteeMember, WalrusCommittee}
use pytusk.CommitteeFanout.{EventLoop, EventLoopLaws}
use pytusk.NativeRead.Fetch.{sliver_of, asked, fetch_slivers_attributed}
use pytusk.NativeRead.Fetch.Fold.{IsDistinct}
use pytusk.NativeRead.Fetch.Outcome.{Outcome, gathered, fetch_slivers_attributed-Outcome}
use pytusk.NativeRead.Reconstruct.{
  Attributed, merge_distinct, decode_attributed, partition_by_verification, is_empty,
  is_decode_error, retried, recovered, decoded_or_recovered, reconstruct_blob,
}
use pytusk.NativeRead.Reconstruct.Slivers.{
  distinct-length, merge_distinct-IsDistinct, merge_distinct-has, partition-IsParted,
}

-- Distinct slivers, no fewer than the threshold.
record IsEnough (threshold : ℕ) (attributed : Attributed) : Type 0 where
  distinct : IsDistinct (map sliver_of attributed)
  reached : threshold ≤ length attributed

fetched-IsEnough :
    (read_sliver : WalrusCommitteeMember → Bytes → ℕ → Axis → Option Bytes) (blob_id : Bytes)
    (axis : Axis) (loop : EventLoop WalrusCommitteeMember)
    → EventLoopLaws loop
    → (committee : WalrusCommittee) (threshold : ℕ) (exclude_node_ids : List String)
      {attributed : Attributed}
    → fetch_slivers_attributed read_sliver blob_id axis loop committee threshold exclude_node_ids
      ≡ some (ok attributed)
    → IsEnough threshold attributed
fetched-IsEnough read_sliver blob_id axis loop laws committee threshold exclude_node_ids
      {attributed} e =
    let (r, returned, outcome) =
      fetch_slivers_attributed-Outcome read_sliver blob_id axis loop laws committee threshold
        exclude_node_ids in
    of_outcome (
      subst (Outcome read_sliver blob_id axis _ _ threshold) (some-injective _ _ (sym returned ∙ e))
        outcome)
  where
    of_outcome :
        Outcome read_sliver blob_id axis
          (pos_part committee.n_shards)
          (asked exclude_node_ids committee.members)
          threshold
          (ok attributed)
        → IsEnough threshold attributed
    of_outcome (gathered _ reached distinct _) = record { distinct = distinct; reached = reached }

merged-IsEnough :
    (threshold : ℕ) (verified replacements : Attributed)
    → IsDistinct (map sliver_of verified)
    → IsEnough threshold replacements
    → IsEnough threshold (merge_distinct verified replacements)
merged-IsEnough threshold verified replacements d more = record {
  distinct = merge_distinct-IsDistinct verified replacements d;
  reached =
      let le =
        distinct-length (map sliver_of replacements)
          (map sliver_of (merge_distinct verified replacements)) more.distinct
          (merge_distinct-has verified replacements) in
      omega (
        arith,
        le,
        more.reached,
        length-map sliver_of replacements,
        length-map sliver_of (merge_distinct verified replacements),
      );
}

module _ {Pair Handle : Type 0} (native : Native Pair Handle)
    (metadata : VerifiedBlobMetadata Handle) (axis : Axis)
    (read_sliver read_again : WalrusCommitteeMember → Bytes → ℕ → Axis → Option Bytes)
    (loop loop_again : EventLoop WalrusCommitteeMember) (laws : EventLoopLaws loop)
    (laws_again : EventLoopLaws loop_again) (committee : WalrusCommittee) (blob_id : Bytes)
    (threshold : ℕ) (verify : Bool) where
  -- The content is what the decoder makes of these slivers.
  pub record IsDecoded (content : Bytes) (count : ℕ) : Type 0 where
    pub slivers : List Bytes
    pub distinct : IsDistinct slivers
    pub reached : threshold ≤ count
    pub counted : length slivers ≡ count
    pub decodes : decode_blob native slivers metadata axis verify ≡ ok content

  decode-IsDecoded :
      (attributed : Attributed) {content : Bytes} {count : ℕ}
      → IsEnough threshold attributed
      → decode_attributed native metadata axis verify attributed ≡ ok (content, count)
      → IsDecoded content count
  unfolding decode_attributed
  decode-IsDecoded attributed {content} {count} is e =
      let (decoded, decodes, e₁) =
        >>=-eq-ok (decode_blob native (map sliver_of attributed) metadata axis verify) _ e in
      let same : (decoded, length attributed) ≡ (content, count) =
        ok-injective (decoded, length attributed) (content, count) e₁ in
      let counts : length attributed ≡ count = ap {B = ℕ} (λ (p : Bytes × ℕ). p.1) same in
      record {
        slivers = map sliver_of attributed;
        distinct = is.distinct;
        reached = omega (arith, is.reached, counts);
        counted = length-map sliver_of attributed ∙ counts;
        decodes = decodes ∙ ap (λ (p : Bytes × ℕ). ok (p.0)) same;
      }

  abbrev Recovers : Option (Result (Bytes × ℕ)) → Bytes → ℕ → Type 0
  Recovers o content count = o ≡ some (ok (content, count))

  retried-IsDecoded :
      (verified : Attributed) (indicted : List String) {content : Bytes} {count : ℕ}
      → IsDistinct (map sliver_of verified)
      → retried native metadata axis read_sliver read_again loop loop_again committee blob_id
          threshold verify verified indicted
        ≡ some (ok (content, count))
      → IsDecoded content count
  unfolding retried
  retried-IsDecoded verified indicted {content} {count} d e =
      by_fetch
        (fetch_slivers_attributed read_again blob_id axis loop_again committee threshold indicted)
        refl e
    where
      by_fetch :
          (o : Option (Result Attributed))
          → fetch_slivers_attributed read_again blob_id axis loop_again committee threshold indicted
            ≡ o
          → elim o [
            | none ↦ none
            | some (err e) ↦ some (err e)
            | some (ok replacements) ↦ some (
                decode_attributed native metadata axis verify
                  (merge_distinct verified replacements))
          ]
            ≡ some (ok (content, count))
          → IsDecoded content count
      by_fetch none f e = cc
      by_fetch (some (err _)) f e = cc
      by_fetch (some (ok replacements)) f e =
          decode-IsDecoded (merge_distinct verified replacements)
            (merged-IsEnough threshold verified replacements d (
              fetched-IsEnough read_again blob_id axis loop_again laws_again committee threshold
                indicted f))
            (some-injective _ _ e)

  recovered-IsDecoded :
      (verified : Attributed) (indicted : List String) {content : Bytes} {count : ℕ}
      → IsDistinct (map sliver_of verified)
      → recovered native metadata axis read_sliver read_again loop loop_again committee blob_id
          threshold verify
          (verified, indicted)
        ≡ some (ok (content, count))
      → IsDecoded content count
  unfolding recovered
  recovered-IsDecoded verified indicted d e =
      elim (Bool-cases (is_empty native metadata axis indicted)) [
        | inl nobody ↦ cc (rw (nobody, recovered) at e)
        | inr somebody ↦ elim (Bool-cases (leb threshold (length verified))) [
          | inl y ↦
              decode-IsDecoded verified
                (record { distinct = d; reached = leb→le threshold (length verified) y })
                (some-injective _ _ (rw (somebody, y, recovered) at e))
          | inr n ↦ retried-IsDecoded verified indicted d (rw (somebody, n, recovered) at e)
        ]
      ]

  handled-IsDecoded :
      (attributed : Attributed) (r : Result (Bytes × ℕ)) {content : Bytes} {count : ℕ}
      → IsEnough threshold attributed
      → decode_attributed native metadata axis verify attributed ≡ r
      → decoded_or_recovered native metadata axis read_sliver read_again loop loop_again committee
          blob_id threshold verify attributed r
        ≡ some (ok (content, count))
      → IsDecoded content count
  unfolding decoded_or_recovered
  handled-IsDecoded attributed (ok decoded) is first e =
      decode-IsDecoded attributed is (first ∙ some-injective _ _ e)
  handled-IsDecoded attributed (err raised) {content} {count} is first e =
      elim (Bool-cases (is_decode_error raised)) [
        | inr other ↦ cc (rw other at e)
        | inl y ↦
            by_parts (partition_by_verification native metadata axis attributed) refl (rw y at e)
      ]
    where
      by_parts :
          (p : Result (Attributed × List String))
          → partition_by_verification native metadata axis attributed ≡ p
          → elim p [
            | err raised ↦ some (err raised)
            | ok parted ↦
                recovered native metadata axis read_sliver read_again loop loop_again committee
                  blob_id threshold verify parted
          ]
            ≡ some (ok (content, count))
          → IsDecoded content count
      by_parts (err _) f e = cc
      by_parts (ok (verified, indicted)) f e =
          recovered-IsDecoded verified indicted
            ((partition-IsParted native metadata axis attributed f).distinct is.distinct) e

  -- Under the laws of both event loops: content that reconstruct_blob returns, at the first decode, after
  -- dropping slivers or after the retry, is what decode_blob makes of distinct slivers, no fewer
  -- than the threshold, and the count beside it is theirs.
  pub reconstruct_blob-IsDecoded :
      {content : Bytes} {count : ℕ}
      → reconstruct_blob native metadata axis read_sliver read_again loop loop_again committee
          blob_id threshold verify
        ≡ some (ok (content, count))
      → IsDecoded content count
  unfolding reconstruct_blob
  reconstruct_blob-IsDecoded {content} {count} e =
      by_fetch (fetch_slivers_attributed read_sliver blob_id axis loop committee threshold []) refl
        e
    where
      by_fetch :
          (o : Option (Result Attributed))
          → fetch_slivers_attributed read_sliver blob_id axis loop committee threshold [] ≡ o
          → elim o [
            | none ↦ none
            | some (err e) ↦ some (err e)
            | some (ok attributed) ↦
                decoded_or_recovered native metadata axis read_sliver read_again loop loop_again
                  committee blob_id threshold verify attributed
                  (decode_attributed native metadata axis verify attributed)
          ]
            ≡ some (ok (content, count))
          → IsDecoded content count
      by_fetch none f e = cc
      by_fetch (some (err _)) f e = cc
      by_fetch (some (ok attributed)) f e =
          handled-IsDecoded attributed (decode_attributed native metadata axis verify attributed)
            (fetched-IsEnough read_sliver blob_id axis loop laws committee threshold [] f) refl e
