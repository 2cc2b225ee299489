-- ===== src/NativeRead/Metadata.antt =====
-- pytusk/core/native_read/metadata.py. The client is a parameter: `read_metadata` is the content of the
-- response of a member to a ReadMetadata, if there is one. The random start is an argument.
use mathlib.Core.Option.{some-injective}
use native.Mathlib.Nat.{add-mod_right, mod-eq_of_lt, mod-lt}
use pytusk.Prelude.{
  subst, ltb, ℕ, zero, suc, ◌+◌, ◌-◌, ◌%◌, ◌<◌, refl, ap, ◌∙◌, arith, Bool-cases, Option-cases, inl,
  inr, ◌≡◌, Bool, true, false, Option, none, some, List, [], ◌∷◌, length, get_elem?, ◌==◌,
  if◌then◌else◌,
}
use pytusk.Prelude.Bytes.{Bytes, bytes_eq, bytes_eq_iff}
use pytusk.Errors.{
  Error, Result, ok, err, metadata_fetch, metadata_verification, index_error, ok-injective,
  >>=-eq-ok, raise_if, ◌>>◌,
}
use pytusk.Redstuff.Codec.{Native, VerifiedBlobMetadata, verify_blob_metadata}
use pytusk.Committee.Members.{WalrusCommitteeMember}

get_elem?-some :
    {A : Type 0} (xs : List A) (i : ℕ) → i < length xs → (x : A) × (get_elem? xs i ≡ some x)
get_elem?-some [] i lt = absurd (omega arith)
get_elem?-some (x ∷ xs) zero lt = (x, refl)
get_elem?-some (x ∷ xs) (suc i) lt = get_elem?-some xs i (omega arith)

listed-lt : {A : Type 0} (xs : List A) (i : ℕ) {x : A} → get_elem? xs i ≡ some x → i < length xs
listed-lt [] i e = cc
listed-lt (x ∷ xs) zero e = omega arith
listed-lt (x ∷ xs) (suc i) e = omega (arith, listed-lt xs i e)

nonempty : (n : ℕ) → 0 < n → (n == 0) ≡ false
nonempty n lt = ground arith

-- except MetadataVerificationError
abbrev pub is_verification_error : Error → Bool
is_verification_error metadata_verification = true
is_verification_error _ = false

module _ {Pair Handle : Type 0} (native : Native Pair Handle)
    (read_metadata : WalrusCommitteeMember → Bytes → Option Bytes) (blob_id : Bytes)
    (n_shards : ℕ) where
  -- What one round makes of a verification: metadata to return, nothing, or an error that ends the
  -- fetch.
  pub judged : Result (VerifiedBlobMetadata Handle) → Result (Option (VerifiedBlobMetadata Handle))
  judged (err e) = if is_verification_error e then ok none else err e
  judged (ok metadata) = if bytes_eq metadata.blob_id blob_id then ok (some metadata) else ok none

  unfoldable pub examined : Option Bytes → Result (Option (VerifiedBlobMetadata Handle))
  unfolding judged
  examined none = ok none
  examined (some content) = judged (verify_blob_metadata native content n_shards)

  module _ (members : List WalrusCommitteeMember) (start : ℕ) where
    examined_at : ℕ → Result (Option (VerifiedBlobMetadata Handle))
    unfolding examined
    examined_at offset = elim (get_elem? members ((start + offset) % length members)) [
      | none ↦ err index_error
      | some member ↦ examined (read_metadata member blob_id)
    ]

    -- The rounds that are left, and the offset of the next.
    pub attempt : ℕ → ℕ → Result (VerifiedBlobMetadata Handle)
    unfolding examined_at
    attempt zero offset = err metadata_fetch
    attempt (suc left) offset =
        let later = attempt left (offset + 1) in
        elim (examined_at offset) [
          | err e ↦ err e
          | ok none ↦ later
          | ok (some metadata) ↦ ok metadata
        ]

    unfoldable pub fetch_verified_metadata : Result (VerifiedBlobMetadata Handle)
    unfolding attempt
    fetch_verified_metadata = do
      raise_if (length members == 0) metadata_fetch
      attempt (length members) 0

    -- The response of a member that verifies for the blob that was asked for.
    pub record IsAnswered (metadata : VerifiedBlobMetadata Handle) : Type 0 where
      pub position : ℕ
      pub member : WalrusCommitteeMember
      pub content : Bytes
      pub listed : get_elem? members position ≡ some member
      pub response : read_metadata member blob_id ≡ some content
      pub verified : verify_blob_metadata native content n_shards ≡ ok metadata
      pub requested : metadata.blob_id ≡ blob_id

    judged-ok :
        (v : Result (VerifiedBlobMetadata Handle)) {metadata : VerifiedBlobMetadata Handle}
        → judged v ≡ ok (some metadata)
        → (v ≡ ok metadata) × (metadata.blob_id ≡ blob_id)
    unfolding judged
    judged-ok (err e) h = ground arith
    judged-ok (ok found) {metadata} h = elim (Bool-cases (bytes_eq found.blob_id blob_id)) [
      | inl y ↦
          let same : found ≡ metadata = some-injective _ _ (ok-injective _ _ (rw y at h)) in
          rw (← same) (refl, (bytes_eq_iff found.blob_id blob_id).0 y)
      | inr n ↦ ground arith
    ]

    examined_at-IsAnswered :
        (offset : ℕ) {metadata : VerifiedBlobMetadata Handle}
        → examined_at offset ≡ ok (some metadata)
        → IsAnswered metadata
    unfolding examined_at examined
    examined_at-IsAnswered offset {metadata} h =
        elim (Option-cases (get_elem? members ((start + offset) % length members))) [
          | inl absent ↦ ground arith
          | inr (member, listed) ↦ elim (Option-cases (read_metadata member blob_id)) [
            | inl silent ↦ ground arith
            | inr (content, response) ↦
                let good =
                  judged-ok (verify_blob_metadata native content n_shards)
                    (rw (listed, response, examined_at) at h) in
                record {
                  position = (start + offset) % length members;
                  member = member;
                  content = content;
                  listed = listed;
                  response = response;
                  verified = good.0;
                  requested = good.1;
                }
          ]
        ]

    attempt-IsAnswered :
        (left offset : ℕ) {metadata : VerifiedBlobMetadata Handle}
        → attempt left offset ≡ ok metadata
        → IsAnswered metadata
    unfolding attempt
    attempt-IsAnswered zero offset e = cc
    attempt-IsAnswered (suc left) offset {metadata} e =
        by_outcome (examined_at offset) refl e (attempt-IsAnswered left (offset + 1))
      where
        by_outcome :
            (r : Result (Option (VerifiedBlobMetadata Handle)))
            → examined_at offset ≡ r
            → elim r [
              | err e ↦ err e
              | ok none ↦ attempt left (offset + 1)
              | ok (some found) ↦ ok found
            ]
              ≡ ok metadata
            → (attempt left (offset + 1) ≡ ok metadata → IsAnswered metadata)
            → IsAnswered metadata
        by_outcome (err _) h e later = cc
        by_outcome (ok none) h e later = later e
        by_outcome (ok (some found)) h e later =
            subst IsAnswered (ok-injective _ _ e) (examined_at-IsAnswered offset h)

    -- What fetch_verified_metadata returns is metadata of the blob that was asked for, which verifies
    -- for the committee's shard count and came from a member.
    pub fetch_verified_metadata-IsAnswered :
        {metadata : VerifiedBlobMetadata Handle}
        → fetch_verified_metadata ≡ ok metadata
        → IsAnswered metadata
    unfolding fetch_verified_metadata
    fetch_verified_metadata-IsAnswered e =
        let (_, _, attempted) = >>=-eq-ok (raise_if (length members == 0) metadata_fetch) _ e in
        attempt-IsAnswered (length members) 0 attempted

    module _
        (calm : (offset : ℕ)
          → (o : Option (VerifiedBlobMetadata Handle)) × (examined_at offset ≡ ok o)) where
      attempt_finds :
          (left offset k : ℕ) {metadata : VerifiedBlobMetadata Handle}
          → k < left
          → examined_at (offset + k) ≡ ok (some metadata)
          → (found : VerifiedBlobMetadata Handle) × (attempt left offset ≡ ok found)
      unfolding attempt
      attempt_finds zero offset k lt good = absurd (omega arith)
      attempt_finds (suc left) offset zero {metadata} lt good =
          let here : examined_at offset ≡ ok (some metadata) =
            ap examined_at (omega arith) ∙ good in
          (metadata, rw (here, attempt) refl)
      attempt_finds (suc left) offset (suc k) {metadata} lt good =
          let rest =
            attempt_finds left (offset + 1) k (omega arith) (ap examined_at (omega arith) ∙ good) in
          by_round (calm offset) rest
        where
          by_round :
              (o : Option (VerifiedBlobMetadata Handle)) × (examined_at offset ≡ ok o)
              → (found : VerifiedBlobMetadata Handle) × (attempt left (offset + 1) ≡ ok found)
              → (found : VerifiedBlobMetadata Handle) × (attempt (suc left) offset ≡ ok found)
          by_round (none, e) (found, later) = (found, rw (e, attempt) later)
          by_round (some now, e) rest = (now, rw (e, attempt) refl)

    offset_of : (n i : ℕ) → start < n → i < n → (k : ℕ) × (k < n) × ((start + k) % n ≡ i)
    offset_of n i s lt = elim (Bool-cases (ltb i start)) [
      | inl y ↦ (
        i + n - start,
        ground arith,
        ap (λ x. x % n) (ground arith) ∙ add-mod_right i n ∙ mod-eq_of_lt lt,
      )
      | inr m ↦ (i - start, ground arith, ap (λ x. x % n) (ground arith) ∙ mod-eq_of_lt lt)
    ]

    -- If a member supplies metadata of this blob that verifies, and no response of a member ends the
    -- fetch with another error, fetch_verified_metadata finds metadata from every start.
    pub fetch_verified_metadata_finds :
        (position : ℕ) (member : WalrusCommitteeMember) (content : Bytes)
        {metadata : VerifiedBlobMetadata Handle}
        → start < length members
        → ((i : ℕ) (m : WalrusCommitteeMember)
            → get_elem? members i ≡ some m
            → (o : Option (VerifiedBlobMetadata Handle)) × (examined (read_metadata m blob_id)
                ≡ ok o))
        → get_elem? members position ≡ some member
        → read_metadata member blob_id ≡ some content
        → verify_blob_metadata native content n_shards ≡ ok metadata
        → metadata.blob_id ≡ blob_id
        → (found : VerifiedBlobMetadata Handle) × (fetch_verified_metadata ≡ ok found)
    unfolding fetch_verified_metadata examined_at examined judged
    fetch_verified_metadata_finds position member content {metadata} s calm listed response verified
          requested =
        let n = length members in
        let (k, k_lt, k_at) = offset_of n position s (listed-lt members position listed) in
        let calm_at : (offset : ℕ)
            → (o : Option (VerifiedBlobMetadata Handle)) × (examined_at offset ≡ ok o) =
          λ offset.
            let (m, there) =
              get_elem?-some members ((start + offset) % n)
                (mod-lt (start + offset) (omega arith)) in
            let (o, e) = calm ((start + offset) % n) m there in (o, rw (there, examined_at) e) in
        let good : examined_at k ≡ ok (some metadata) =
          rw (k_at, examined_at)
            (rw (listed, examined_at)
              (rw (response, examined)
                (rw (verified, judged) (rw ((bytes_eq_iff _ _).1 requested) refl)))) in
        let (found, e) = attempt_finds calm_at n 0 k k_lt (ap examined_at (omega arith) ∙ good) in
        (found, rw (nonempty n (omega arith)) e)
