-- ===== src/Certification/Certificate/Soundness.antt =====
-- What a certificate that build_certificate returns stands for (pytusk/core/certification.py).
use pytusk.Prelude.{
  ℕ, ◌≡◌, ◌≢◌, refl, sym, ap, ◌∙◌, subst, true, not, Option, none, some, List, [], map, All, arith,
  contains, IsAscending, sorted, contains-sorted, sorted-IsAscending, inl, inr, ◌⊎◌,
}
use pytusk.Prelude.Bytes.{Bytes}
use pytusk.Errors.{
  ok, returned, raise_if, value_error, invalid_confirmation, quorum_not_reached, >>=-eq-ok,
  raise_if-eq-ok, ok-injective,
}
use pytusk.Certification.Bitmap.{pack_signers_bitmap, unpack_signers_bitmap}
use pytusk.Certification.Bitmap.RoundTrip.{pack-in_range, unpack-pack_ascending}
use pytusk.Certification.Quorum.{is_quorum}
use pytusk.Certification.Certificate.{
  NodeConfirmation, Certificate, Bls, tally, check_messages, place_of, signature_of, public_key_of,
  good_confirmations, bad_nodes, choose, certified_by, build_certificate, aggregate_first, is_empty,
  reference, lift_answer,
}
use pytusk.Certification.Certificate.Facts.{total_weight, tally-Tallied, check_messages-eq-ok}

-- What the certificate's signers contribute to it: their positions in ascending order, as the bitmap
-- has them, and their weight, which is a quorum.
pub record IsTally (signers : List NodeConfirmation) (size n : ℕ) (cert : Certificate)
    : Type 0 where
  pub quorum : is_quorum cert.weight n ≡ true
  pub weighs : cert.weight ≡ total_weight signers
  pub ascending : IsAscending 0 cert.signer_positions
  pub positions : (q : ℕ) → contains q cert.signer_positions ≡ contains q (map place_of signers)
  pub bitmap : unpack_signers_bitmap cert.signers_bitmap size ≡ ok cert.signer_positions

-- The signature of the certificate over its message: an aggregate over all the confirmations that
-- verifies, or one over the confirmations that verify singly.
abbrev pub IsSigned : Bls → List NodeConfirmation → List NodeConfirmation → Bytes → Bytes → Type 0
IsSigned bls confirmations signers message signature =
    ((signers ≡ confirmations)
      × (bls.bls_aggregate_verify signature (map public_key_of signers) message ≡ returned true))
    ⊎ ((signers ≡ good_confirmations bls message confirmations)
        × (signers ≢ [])
        × (bls.bls_aggregate (map signature_of signers) ≡ returned signature))

pack-unpack :
    (ps : List ℕ) (size : ℕ) {bitmap : Bytes}
    → IsAscending 0 ps
    → pack_signers_bitmap ps size ≡ ok bitmap
    → unpack_signers_bitmap bitmap size ≡ ok ps
pack-unpack ps size a e = rw e at (unpack-pack_ascending ps size a (pack-in_range ps size e))

module _ (bls : Bls) where
  certified_by-IsTally :
      (signers : List NodeConfirmation) (signature message : Bytes) (size n : ℕ)
      {cert : Certificate}
      → certified_by bls signers signature message size n ≡ ok cert
      → IsTally signers size n cert
        × (cert.serialized_message ≡ message)
        × (cert.aggregate_signature ≡ signature)
  unfolding certified_by
  certified_by-IsTally signers signature message size n {cert} e =
      let ((seen, weight), tallied, e₁) = >>=-eq-ok (tally [] 0 signers) _ e in
      let t = tally-Tallied signers [] 0 tt tallied in
      let (u, reached, e₂) =
        >>=-eq-ok (raise_if (not (is_quorum weight n)) quorum_not_reached) _ e₁ in
      let q = raise_if-eq-ok (not (is_quorum weight n)) quorum_not_reached reached in
      let (bitmap, packed, e₃) = >>=-eq-ok (pack_signers_bitmap (sorted seen) size) _ e₂ in
      let a = sorted-IsAscending seen t.distinct in
      subst
        (λ (c : Certificate).
          IsTally signers size n c
          × (c.serialized_message ≡ message)
          × (c.aggregate_signature ≡ signature))
        (ok-injective _ _ e₃)
        (
          record {
            quorum = ground arith;
            weighs = t.weighs ∙ omega arith;
            ascending = a;
            positions = λ p. contains-sorted p seen ∙ t.members p;
            bitmap = pack-unpack (sorted seen) size a packed;
          },
          refl,
          refl,
        )

  aggregate_first-verifies :
      (cs : List NodeConfirmation) (message : Bytes) {signature : Bytes}
      → aggregate_first bls cs message ≡ some signature
      → bls.bls_aggregate_verify signature (map public_key_of cs) message ≡ returned true
  unfolding aggregate_first
  aggregate_first-verifies cs message e = ground arith

  first_choice :
      (cs : List NodeConfirmation) (message s : Bytes) {signers : List NodeConfirmation}
      {signature : Bytes}
      → choose bls (some s) cs message ≡ ok (signers, signature)
      → (signers ≡ cs) × (s ≡ signature)
  unfolding choose
  first_choice cs message s e = ground arith

  fallback_choice :
      (cs : List NodeConfirmation) (message : Bytes) {signers : List NodeConfirmation}
      {signature : Bytes}
      → choose bls none cs message ≡ ok (signers, signature)
      → (signers ≡ good_confirmations bls message cs)
        × (signers ≢ [])
        × (bls.bls_aggregate (map signature_of signers) ≡ returned signature)
  unfolding choose
  fallback_choice cs message {signers} {signature} e =
      let good = good_confirmations bls message cs in
      let (u, some_bad, e₁) =
        >>=-eq-ok (raise_if (is_empty (bad_nodes bls message cs)) invalid_confirmation) _ e in
      let (v, some_good, e₂) = >>=-eq-ok (raise_if (is_empty good) invalid_confirmation) _ e₁ in
      let nonempty = raise_if-eq-ok (is_empty good) invalid_confirmation some_good in
      let (s, aggregated, e₃) =
        >>=-eq-ok (lift_answer bls (bls.bls_aggregate (map signature_of good))) _ e₂ in
      let pair = ok-injective _ _ e₃ in
      let same : good ≡ signers = ap (λ (p : List NodeConfirmation × Bytes). p.0) pair in
      let signed : s ≡ signature = ap (λ (p : List NodeConfirmation × Bytes). p.1) pair in
      (
        sym same,
        (λ none_left. cc (nonempty, ap is_empty same, ap is_empty none_left)),
        rw (← same) (ground (arith, signed)),
      )

  choose-IsSigned :
      (cs : List NodeConfirmation) (message : Bytes) (first : Option Bytes)
      {signers : List NodeConfirmation} {signature : Bytes}
      → aggregate_first bls cs message ≡ first
      → choose bls first cs message ≡ ok (signers, signature)
      → IsSigned bls cs signers message signature
  choose-IsSigned cs message none first e = inr (fallback_choice cs message e)
  choose-IsSigned cs message (some s) first e =
      let (all, signed) = first_choice cs message s e in
      inl (all, rw (all, ← signed) (aggregate_first-verifies cs message first))

  -- When build_certificate returns a certificate: every confirmation carries the certificate's
  -- message; the signers are all the confirmations, and the aggregate verified, or they are those
  -- that verify singly, at least one, and the signature is their aggregate; the weight is the
  -- signers' and a quorum; and the ascending positions, which the bitmap unpacks to, are the signers'.
  pub build_certificate_sound :
      (confirmations : List NodeConfirmation) (size n : ℕ) (expected : Option Bytes)
      {cert : Certificate}
      → build_certificate bls confirmations size n expected ≡ ok cert
      → (signers : List NodeConfirmation) × (cert.serialized_message
          ≡ reference expected confirmations)
        × All (λ c. c.serialized_message ≡ cert.serialized_message) confirmations
        × IsSigned bls confirmations signers cert.serialized_message cert.aggregate_signature
        × IsTally signers size n cert
  unfolding build_certificate
  build_certificate_sound confirmations size n expected {cert} e =
      let message = reference expected confirmations in
      let (u, nonempty, e₁) = >>=-eq-ok (raise_if (is_empty confirmations) value_error) _ e in
      let (v, agreed, e₂) = >>=-eq-ok (check_messages message confirmations) _ e₁ in
      let ((signers, signature), chosen, e₃) =
        >>=-eq-ok (choose bls (aggregate_first bls confirmations message) confirmations message) _
          e₂ in
      let (t, m, s) = certified_by-IsTally signers signature message size n e₃ in
      (
        signers,
        m,
        rw m (check_messages-eq-ok message confirmations agreed),
        rw (m, s) (choose-IsSigned confirmations message _ refl chosen),
        t,
      )
