-- ===== src/Certification/Certificate.antt =====
-- Confirmations and certificates of pytusk/core/certification.py. The BLS functions of the extension
-- (pysui_fastcrypto) are the record `Bls`; log calls and error texts are left out.
pub mod Facts
pub mod Soundness
pub mod Completeness
use pytusk.Prelude.{
  ℕ, ◌+◌, String, Bool, true, false, not, Option, none, some, List, [], ◌∷◌, map, if◌then◌else◌,
  contains, sorted,
}
use pytusk.Prelude.Bytes.{Bytes, bytes_eq}
use pytusk.Errors.{
  Error, Result, ok, err, Answer, returned, raised, ◌>>=◌, ◌>>◌, raise_if, value_error,
  native_error, confirmation_mismatch, invalid_confirmation, quorum_not_reached,
}
use pytusk.Certification.Bitmap.{pack_signers_bitmap}
use pytusk.Certification.Quorum.{is_quorum}

pub record NodeConfirmation : Type 0 where
  pub node_id : String
  pub position : ℕ
  pub weight : ℕ
  pub public_key : Bytes
  pub serialized_message : Bytes
  pub signature : Bytes

pub record Certificate : Type 0 where
  pub serialized_message : Bytes
  pub aggregate_signature : Bytes
  pub signers_bitmap : Bytes
  pub signer_positions : List ℕ
  pub weight : ℕ

pub record Bls : Type 0 where
  pub bls_aggregate : List Bytes → Answer Bytes
  pub bls_aggregate_verify : Bytes → List Bytes → Bytes → Answer Bool
  pub bls_verify : Bytes → Bytes → Bytes → Answer Bool
  pub bls_confirmation_bytes : ℕ → Bytes → Option Bytes → Bytes

-- try: … except ValueError: False
abbrev pub or_false : Answer Bool → Bool
or_false (returned b) = b
or_false (raised code) = false

abbrev pub is_empty {ℓ} : {A : Type ℓ} → List A → Bool
is_empty [] = true
is_empty (x ∷ xs) = false

abbrev pub signature_of : NodeConfirmation → Bytes
signature_of c = c.signature

abbrev pub public_key_of : NodeConfirmation → Bytes
public_key_of c = c.public_key

abbrev pub place_of : NodeConfirmation → ℕ
place_of c = c.position

unfoldable pub reference : Option Bytes → List NodeConfirmation → Bytes
reference (some expected) confirmations = expected
reference none [] = []
reference none (c ∷ cs) = c.serialized_message

pub check_messages : Bytes → List NodeConfirmation → Result (Unit {0})
check_messages message [] = ok tt
check_messages message (c ∷ cs) = do
  raise_if (not (bytes_eq c.serialized_message message)) confirmation_mismatch
  check_messages message cs

-- The loop over seen_positions and weight; the set is a list.
pub tally : List ℕ → ℕ → List NodeConfirmation → Result (List ℕ × ℕ)
tally seen weight [] = ok (seen, weight)
tally seen weight (c ∷ cs) = do
  raise_if (contains c.position seen) value_error
  tally (c.position ∷ seen) (weight + c.weight) cs

module _ (bls : Bls) where
  open bls use {bls_aggregate, bls_aggregate_verify, bls_verify, bls_confirmation_bytes}

  unfoldable pub confirmation_message : ℕ → Bytes → Option Bytes → Bytes
  confirmation_message epoch blob_id object_id = bls_confirmation_bytes epoch blob_id object_id

  unfoldable pub verify_confirmation : NodeConfirmation → Bytes → Bool
  verify_confirmation c expected_message =
      if bytes_eq c.serialized_message expected_message
      then or_false (bls_verify c.public_key c.signature expected_message)
      else false

  -- The aggregate over all confirmations, if it can be built and verifies.
  pub aggregate_first : List NodeConfirmation → Bytes → Option Bytes
  aggregate_first cs message = elim (bls_aggregate (map signature_of cs)) [
    | raised code ↦ none
    | returned signature ↦
        if or_false (bls_aggregate_verify signature (map public_key_of cs) message)
        then some signature
        else none
  ]

  abbrev pub verifies : Bytes → NodeConfirmation → Bool
  verifies message c = or_false (bls_verify c.public_key c.signature message)

  unfoldable pub good_confirmations : Bytes → List NodeConfirmation → List NodeConfirmation
  good_confirmations message [] = []
  good_confirmations message (c ∷ cs) =
      let good = good_confirmations message cs in if verifies message c then c ∷ good else good

  unfoldable pub bad_nodes : Bytes → List NodeConfirmation → List String
  bad_nodes message [] = []
  bad_nodes message (c ∷ cs) =
      let bad = bad_nodes message cs in if verifies message c then bad else c.node_id ∷ bad

  lift_answer : Answer Bytes → Result Bytes
  lift_answer (returned b) = ok b
  lift_answer (raised code) = err (native_error code)

  -- The confirmations that go into the certificate, and their aggregate signature.
  pub choose : Option Bytes → List NodeConfirmation → Bytes → Result (List NodeConfirmation × Bytes)
  unfolding good_confirmations bad_nodes lift_answer
  choose (some signature) cs message = ok (cs, signature)
  choose none cs message = do
    raise_if (is_empty (bad_nodes message cs)) invalid_confirmation
    raise_if (is_empty (good_confirmations message cs)) invalid_confirmation
    signature ← lift_answer (bls_aggregate (map signature_of (good_confirmations message cs)))
    ok (good_confirmations message cs, signature)

  -- The part after the signatures are settled.
  pub certified_by : List NodeConfirmation → Bytes → Bytes → ℕ → ℕ → Result Certificate
  unfolding tally
  certified_by signers signature message committee_size n_shards = do
    (seen, weight) ← tally [] 0 signers
    raise_if (not (is_quorum weight n_shards)) quorum_not_reached
    bitmap ← pack_signers_bitmap (sorted seen) committee_size
    ok (record {
      serialized_message = message;
      aggregate_signature = signature;
      signers_bitmap = bitmap;
      signer_positions = sorted seen;
      weight = weight;
    })

  unfoldable pub build_certificate :
      List NodeConfirmation → ℕ → ℕ → Option Bytes → Result Certificate
  unfolding reference check_messages aggregate_first choose certified_by
  build_certificate confirmations committee_size n_shards expected_message = do
    raise_if (is_empty confirmations) value_error
    let message = reference expected_message confirmations
    check_messages message confirmations
    (signers, signature) ← choose (aggregate_first confirmations message) confirmations message
    certified_by signers signature message committee_size n_shards

  unfoldable pub verify_certificate : Certificate → List Bytes → Bool
  verify_certificate certificate public_keys = or_false (
      bls_aggregate_verify certificate.aggregate_signature public_keys
        certificate.serialized_message)
