-- ===== src/Certification/Certificate/Completeness.antt =====
-- When build_certificate succeeds, and that verify_certificate accepts what it builds
-- (pytusk/core/certification.py).
use pytusk.Prelude.{
  ℕ, ◌+◌, ◌≤◌, ◌<◌, ◌≡◌, ◌≢◌, refl, ◌∙◌, subst, true, false, Option, none, some, List, [], ◌∷◌, map,
  All, arith, contains, sorted, contains-sorted, Bool-cases, inl, inr, ◌⊎◌, ==_iff, ◌==◌,
}
use pytusk.Prelude.Bytes.{Bytes}
use pytusk.Errors.{ok, returned}
use pytusk.Certification.Bitmap.RoundTrip.{unpack-pack}
use pytusk.Certification.Quorum.{is_quorum}
use pytusk.Certification.Certificate.{
  NodeConfirmation, Certificate, Bls, place_of, signature_of, public_key_of, verifies,
  good_confirmations, bad_nodes, choose, certified_by, build_certificate, verify_certificate,
  aggregate_first, is_empty,
}
use pytusk.Certification.Certificate.Facts.{
  total_weight, IsFresh, tally-Tallied, fresh-tally, agreed-check_messages,
  good_confirmations-verify, good_confirmations-all,
}
use pytusk.Certification.Certificate.Soundness.{IsTally, IsSigned, build_certificate_sound}

-- What the code relies on: signatures over one message that verify singly have an aggregate, and it
-- verifies against their keys.
pub record BlsLaws (bls : Bls) : Type 0 where
  pub aggregates :
      (message : Bytes) (cs : List NodeConfirmation)
      → cs ≢ []
      → All (λ c. verifies bls message c ≡ true) cs
      → (signature : Bytes) × (bls.bls_aggregate (map signature_of cs) ≡ returned signature)
        × (bls.bls_aggregate_verify signature (map public_key_of cs) message ≡ returned true)

below_of_contains :
    (ps qs : List ℕ) (size : ℕ)
    → ((q : ℕ) → contains q ps ≡ true → contains q qs ≡ true)
    → All (λ q. q < size) qs
    → All (λ q. q < size) ps
below_of_contains [] qs size h a = tt
below_of_contains (p ∷ ps) qs size h a = (
  at qs a (h p (ground (arith, (==_iff p p).1 refl))),
  below_of_contains ps qs size (λ q m. h q (ground arith)) a,
)
  where
    at : (rs : List ℕ) → All (λ q. q < size) rs → contains p rs ≡ true → p < size
    at [] b m = cc
    at (r ∷ rs) (lt, b) m = elim (Bool-cases (r == p)) [
      | inl y ↦ ground arith
      | inr n ↦ at rs b (ground arith)
    ]

positions_below :
    (cs : List NodeConfirmation) (size : ℕ)
    → All (λ c. c.position < size) cs
    → All (λ q. q < size) (map place_of cs)
positions_below [] size a = tt
positions_below (c ∷ cs) size (lt, a) = (lt, positions_below cs size a)

IsFresh-weaken :
    (cs : List NodeConfirmation) (seen more : List ℕ)
    → ((q : ℕ) → contains q seen ≡ true → contains q more ≡ true)
    → IsFresh more cs
    → IsFresh seen cs
IsFresh-weaken [] seen more sub f = tt
IsFresh-weaken (c ∷ cs) seen more sub (new, f) = (
  ground (arith, sub c.position),
  IsFresh-weaken cs (c.position ∷ seen) (c.position ∷ more) (λ q m. ground (arith, sub q)) f,
)

module _ (bls : Bls) where
  certify_succeeds :
      (signers : List NodeConfirmation) (signature message : Bytes) (size n : ℕ)
      → IsFresh [] signers
      → All (λ c. c.position < size) signers
      → is_quorum (total_weight signers) n ≡ true
      → (cert : Certificate) × (certified_by bls signers signature message size n ≡ ok cert)
  unfolding certified_by
  certify_succeeds signers signature message size n fresh below quorum =
      let (seen, tallied) = fresh-tally signers [] 0 fresh in
      let t = tally-Tallied signers [] 0 tt tallied in
      let weight : 0 + total_weight signers ≡ total_weight signers = omega arith in
      let (bitmap, packed, _, _) = unpack-pack (sorted seen) size (
        below_of_contains (sorted seen) (map place_of signers) size
          (λ q m. ground (arith, contains-sorted q seen, t.members q))
          (positions_below signers size below)) in
      (
        record {
          serialized_message = message;
          aggregate_signature = signature;
          signers_bitmap = bitmap;
          signer_positions = sorted seen;
          weight = 0 + total_weight signers;
        },
        rw tallied (rw (weight, quorum) (rw packed refl)),
      )

  module _ (message : Bytes) where
    good_confirmations-IsFresh :
        (cs : List NodeConfirmation) (seen : List ℕ)
        → IsFresh seen cs
        → IsFresh seen (good_confirmations bls message cs)
    unfolding good_confirmations
    good_confirmations-IsFresh [] seen f = tt
    good_confirmations-IsFresh (c ∷ cs) seen (new, f) = elim (Bool-cases (verifies bls message c)) [
      | inl y ↦ rw y (new, good_confirmations-IsFresh cs (c.position ∷ seen) f)
      | inr n ↦ rw n (
          good_confirmations-IsFresh cs seen
            (IsFresh-weaken cs seen (c.position ∷ seen) (λ q m. ground arith) f))
    ]

    good_below :
        (cs : List NodeConfirmation) (size : ℕ)
        → All (λ c. c.position < size) cs
        → All (λ c. c.position < size) (good_confirmations bls message cs)
    unfolding good_confirmations
    good_below [] size a = tt
    good_below (c ∷ cs) size (lt, a) = elim (Bool-cases (verifies bls message c)) [
      | inl y ↦ rw y (lt, good_below cs size a)
      | inr n ↦ rw n (good_below cs size a)
    ]

    good_weight :
        (cs : List NodeConfirmation)
        → total_weight (good_confirmations bls message cs) ≤ total_weight cs
    unfolding good_confirmations
    good_weight [] = omega arith
    good_weight (c ∷ cs) = ground (arith, good_weight cs)

  -- The weight of nothing is no quorum.
  quorum_nonempty :
      (cs : List NodeConfirmation) (n : ℕ) → is_quorum (total_weight cs) n ≡ true → cs ≢ []
  unfolding is_quorum
  quorum_nonempty [] n h e = ground arith
  quorum_nonempty (c ∷ cs) n h e = cc

  quorum_grows : (v w n : ℕ) → v ≤ w → is_quorum v n ≡ true → is_quorum w n ≡ true
  unfolding is_quorum
  quorum_grows v w n le h = ground arith

  first_verifies :
      (cs : List NodeConfirmation) (message signature : Bytes)
      → bls.bls_aggregate (map signature_of cs) ≡ returned signature
      → bls.bls_aggregate_verify signature (map public_key_of cs) message ≡ returned true
      → aggregate_first bls cs message ≡ some signature
  unfolding aggregate_first
  first_verifies cs message signature a v = ground (arith, a, v)

  nonempty_is : {A : Type 0} (xs : List A) → xs ≢ [] → is_empty xs ≡ false
  nonempty_is [] h = absurd (h refl)
  nonempty_is (x ∷ xs) h = refl

  module _ (laws : BlsLaws bls) (message : Bytes) (cs : List NodeConfirmation) where
    abbrev good : List NodeConfirmation
    good = good_confirmations bls message cs

    -- If the aggregate fails, some node is bad.
    some_bad :
        good ≢ []
        → aggregate_first bls cs message ≡ none
        → is_empty (bad_nodes bls message cs) ≡ false
    some_bad some_good failed = elim (Bool-cases (is_empty (bad_nodes bls message cs))) [
      | inl y ↦
          let all : good ≡ cs = good_confirmations-all bls message cs y in
          let (s, a, v) =
            laws.aggregates message cs (λ e. some_good (all ∙ e))
              (subst (λ (xs : List NodeConfirmation). All (λ c. verifies bls message c ≡ true) xs)
                all (good_confirmations-verify bls message cs)) in
          cc (failed, first_verifies cs message s a v)
      | inr n ↦ n
    ]

    choose_succeeds :
        (first : Option Bytes)
        → aggregate_first bls cs message ≡ first
        → good ≢ []
        → (signature : Bytes) × ((choose bls first cs message ≡ ok (cs, signature))
            ⊎ (choose bls first cs message ≡ ok (good, signature)))
    unfolding choose
    choose_succeeds (some s) e some_good = (s, inl refl)
    choose_succeeds none e some_good =
        let (s, a, v) =
          laws.aggregates message good some_good (good_confirmations-verify bls message cs) in
        (s, inr (rw (some_bad some_good e) (rw (nonempty_is good some_good) (rw a refl))))

  -- Under the laws of BLS aggregates: if every confirmation carries the expected message, the
  -- positions are different and in the committee, and the confirmations that verify singly have a
  -- quorum, then build_certificate returns a certificate, whatever the other confirmations hold.
  pub build_certificate_tolerates :
      (confirmations : List NodeConfirmation) (size n : ℕ) (message : Bytes)
      → BlsLaws bls
      → All (λ c. c.serialized_message ≡ message) confirmations
      → IsFresh [] confirmations
      → All (λ c. c.position < size) confirmations
      → is_quorum (total_weight (good_confirmations bls message confirmations)) n ≡ true
      → (cert : Certificate) × (build_certificate bls confirmations size n (some message) ≡ ok cert)
  unfolding build_certificate
  build_certificate_tolerates cs size n message laws agreed fresh below quorum =
      let some_good = quorum_nonempty (good_confirmations bls message cs) n quorum in
      let some_any : cs ≢ [] = λ e. some_good (rw e (unfold good_confirmations in refl)) in
      let (signature, chosen) =
        choose_succeeds laws message cs (aggregate_first bls cs message) refl some_good in
      elim chosen [
        | inl e ↦
            let all = quorum_grows _ (total_weight cs) n (good_weight message cs) quorum in
            let (cert, done) = certify_succeeds cs signature message size n fresh below all in
            (
              cert,
              rw (nonempty_is cs some_any)
                  (rw (agreed-check_messages message cs agreed) (rw e done)),
            )
        | inr e ↦
            let (cert, done) =
              certify_succeeds (good_confirmations bls message cs) signature message size n
                (good_confirmations-IsFresh message cs [] fresh) (good_below message cs size below)
                quorum in
            (
              cert,
              rw (nonempty_is cs some_any)
                  (rw (agreed-check_messages message cs agreed) (rw e done)),
            )
      ]

  signed_verifies :
      (laws : BlsLaws bls) (confirmations signers : List NodeConfirmation) (cert : Certificate)
      → IsSigned bls confirmations signers cert.serialized_message cert.aggregate_signature
      → verify_certificate bls cert (map public_key_of signers) ≡ true
  unfolding verify_certificate
  signed_verifies laws confirmations signers cert (inl (all, v)) = rw v
  signed_verifies laws confirmations signers cert (inr (some_good, nonempty, a)) =
      let (s, b, v) =
        laws.aggregates cert.serialized_message signers nonempty
          (rw some_good (good_confirmations-verify bls cert.serialized_message confirmations)) in
      ground (arith, a, b, v)

  -- Under the laws of BLS aggregates: verify_certificate accepts every certificate that
  -- build_certificate returns, with the public keys of signers whose positions and quorum weight
  -- are the certificate's.
  pub verify-build :
      (confirmations : List NodeConfirmation) (size n : ℕ) (expected : Option Bytes)
      {cert : Certificate}
      → BlsLaws bls
      → build_certificate bls confirmations size n expected ≡ ok cert
      → (signers : List NodeConfirmation) × IsTally signers size n cert
        × (verify_certificate bls cert (map public_key_of signers) ≡ true)
  verify-build confirmations size n expected {cert} laws e =
      let (signers, m, agreed, signed, t) =
        build_certificate_sound bls confirmations size n expected e in
      (signers, t, signed_verifies laws confirmations signers cert signed)
