-- ===== src/Certification/Runs.antt =====
-- Concrete runs of pytusk/core/certification.py, and its theorems at such inputs.
use mathlib.Core.List.{flatten}
use pytusk.Prelude.{
  ℕ, ◌+◌, ◌/◌, ◌<◌, ◌≤◌, ◌↔◌, ◌≡◌, refl, ap, ap₂, true, List, [], ◌∷◌, ◌++◌, map, All, arith,
  length, none, some, sorted,
}
use pytusk.Prelude.Bytes.{Bytes, bytes_eq, bytes_eq_iff}
use pytusk.Errors.{ok, returned}
use pytusk.Redstuff.Sizes.{max_n_faulty}
use pytusk.Prelude.Int.{pos}
use pytusk.Certification.Quorum.{is_quorum}
use pytusk.Certification.Quorum.Signers.{signed, unsigned, signed_twice, quorums_intersect}
use pytusk.Committee.Members.{WalrusCommitteeMember}
use pytusk.Certification.Bitmap.{pack_signers_bitmap, unpack_signers_bitmap}
use pytusk.Certification.Bitmap.RoundTrip.{signers_in, unpack-pack}
use pytusk.Certification.Certificate.{
  NodeConfirmation, Certificate, Bls, build_certificate, verify_certificate, public_key_of,
  signature_of, good_confirmations, reference, verifies,
}
use pytusk.Certification.Certificate.Facts.{total_weight}
use pytusk.Certification.Certificate.Soundness.{IsTally, IsSigned, build_certificate_sound}
use pytusk.Certification.Certificate.Completeness.{
  BlsLaws, build_certificate_tolerates, verify-build,
}

pack_runs : pack_signers_bitmap (0 ∷ 9 ∷ 3 ∷ []) 10 ≡ ok (9 ∷ 2 ∷ [])
unfolding pack_signers_bitmap
pack_runs = refl

unpack_runs : unpack_signers_bitmap (9 ∷ 2 ∷ []) 10 ≡ ok (0 ∷ 3 ∷ 9 ∷ [])
unfolding unpack_signers_bitmap
unpack_runs = refl

faulty_10 : max_n_faulty 10 ≡ pos 3
unfolding max_n_faulty
faulty_10 = refl

quorum_7 : is_quorum 7 10 ≡ true
unfolding is_quorum
quorum_7 = refl

abbrev holder : List ℕ → WalrusCommitteeMember
holder shards = record {
  node_id = "n";
  shard_indices = shards;
  network_address = "x";
  public_key = [];
}

-- Ten shards; of each quorum one of the larger members is missing.
abbrev holders : List WalrusCommitteeMember
holders =
    holder (0 ∷ 1 ∷ 2 ∷ [])
    ∷ holder (3 ∷ 4 ∷ 5 ∷ [])
    ∷ holder (6 ∷ 7 ∷ 8 ∷ [])
    ∷ holder (9 ∷ [])
    ∷ []

quorums_intersect_example :
    (3 < signed_twice (0 ∷ 1 ∷ 3 ∷ []) (0 ∷ 2 ∷ 3 ∷ []) holders)
    × ((rs : List ℕ) → (is_quorum (signed rs holders) 10 ≡ true) ↔ (unsigned rs holders ≤ 3))
quorums_intersect_example =
    quorums_intersect holders 10 3 (0 ∷ 1 ∷ 3 ∷ []) (0 ∷ 2 ∷ 3 ∷ []) refl faulty_10 quorum_7
      quorum_7

unpack-pack_example :
    (bitmap : Bytes) × (pack_signers_bitmap (9 ∷ 0 ∷ 9 ∷ []) 10 ≡ ok bitmap)
    × (length bitmap ≡ (10 + 7) / 8)
    × (unpack_signers_bitmap bitmap 10 ≡ ok (signers_in (9 ∷ 0 ∷ 9 ∷ []) 0 10))
unpack-pack_example = unpack-pack (9 ∷ 0 ∷ 9 ∷ []) 10 (omega arith)

-- Signatures that are the key and the message, with concatenation as the aggregate.
abbrev sign : Bytes → Bytes → Bytes
sign message key = key ++ message

abbrev bls : Bls
bls = record {
  bls_aggregate = λ signatures. returned (flatten signatures);
  bls_aggregate_verify =
      λ signature keys message. returned (bytes_eq signature (flatten (map (sign message) keys)));
  bls_verify = λ key signature message. returned (bytes_eq signature (sign message key));
  bls_confirmation_bytes = λ epoch blob_id object_id. blob_id;
}

concatenated :
    (message : Bytes) (cs : List NodeConfirmation)
    → All (λ c. verifies bls message c ≡ true) cs
    → flatten (map signature_of cs) ≡ flatten (map (sign message) (map public_key_of cs))
unfolding flatten
concatenated message [] h = refl
concatenated message (c ∷ cs) (v, h) =
    ap₂ (λ (xs ys : Bytes). xs ++ ys) ((bytes_eq_iff c.signature _).0 v) (concatenated message cs h)

bls_laws : BlsLaws bls
bls_laws = record {
  aggregates = λ message cs nonempty h. (
    flatten (map signature_of cs),
    refl,
    ap returned ((bytes_eq_iff _ _).1 (concatenated message cs h)),
  );
}

abbrev confirmation : ℕ → ℕ → Bytes → NodeConfirmation
confirmation position weight signature = record {
  node_id = "0x1";
  position = position;
  weight = weight;
  public_key = position ∷ [];
  serialized_message = 77 ∷ [];
  signature = signature;
}

-- Three nodes, the second with a bad signature.
abbrev confirmations : List NodeConfirmation
confirmations =
    confirmation 9 4 (9 ∷ 77 ∷ []) ∷ confirmation 1 2 (0 ∷ []) ∷ confirmation 0 3 (0 ∷ 77 ∷ []) ∷ []

abbrev certificate : Certificate
certificate = record {
  serialized_message = 77 ∷ [];
  aggregate_signature = 9 ∷ 77 ∷ 0 ∷ 77 ∷ [];
  signers_bitmap = 1 ∷ 2 ∷ [];
  signer_positions = 0 ∷ 9 ∷ [];
  weight = 7;
}

build_runs : build_certificate bls confirmations 10 10 none ≡ ok certificate
unfolding build_certificate pack_signers_bitmap is_quorum flatten sorted
build_runs = refl

build_certificate_sound_example :
    (signers : List NodeConfirmation) × (certificate.serialized_message
      ≡ reference none confirmations)
    × All (λ c. c.serialized_message ≡ certificate.serialized_message) confirmations
    × IsSigned bls confirmations signers certificate.serialized_message
        certificate.aggregate_signature
    × IsTally signers 10 10 certificate
build_certificate_sound_example = build_certificate_sound bls confirmations 10 10 none build_runs

good_quorum : is_quorum (total_weight (good_confirmations bls (77 ∷ []) confirmations)) 10 ≡ true
unfolding is_quorum good_confirmations
good_quorum = refl

build_certificate_tolerates_example :
    (cert : Certificate) × (build_certificate bls confirmations 10 10 (some (77 ∷ [])) ≡ ok cert)
build_certificate_tolerates_example =
    build_certificate_tolerates bls confirmations 10 10 (77 ∷ []) bls_laws
      (refl, (refl, (refl, tt))) (refl, (refl, (refl, tt))) (omega arith) good_quorum

verify-build_example :
    (signers : List NodeConfirmation) × IsTally signers 10 10 certificate
    × (verify_certificate bls certificate (map public_key_of signers) ≡ true)
verify-build_example = verify-build bls confirmations 10 10 none bls_laws build_runs
