-- ===== src/Relay/Certificate/Runs.antt =====
-- A run of parse_relay_certificate (pytusk/core/relay_upload/relay_certify.py).
use pytusk.Prelude.{sorted, String, true, false, ◌≡◌, refl, ◌⊎◌, none, [], ◌∷◌}
use pytusk.Prelude.Int.{pos}
use pytusk.Prelude.Bytes.{Bytes, from_bytes_little}
use pytusk.Errors.{Result, ok, err, returned, relay_certificate_parse}
use pytusk.Committee.Json.{str, int, bool, list, dict, JsonList, nil, cons, JsonDict, empty, field}
use pytusk.Committee.Members.{WalrusCommittee, committee_size, member_at}
use pytusk.Certification.Bitmap.{pack_signers_bitmap}
use pytusk.Certification.Quorum.{is_quorum}
use pytusk.Certification.Certificate.{Certificate, Bls, confirmation_message}
use pytusk.Relay.Certificate.{
  parse_relay_certificate, parse_fields, item, read_signers, signer_ints, read_message, bytes_of,
  byte_of, check_blob, signed_epoch, read_signature, pack_signers, naturals, distinct, weight_at,
}
use pytusk.Relay.Certificate.Checked.{IsChecked, parse_relay_certificate-IsChecked}

-- Three bytes of intent, the epoch and the blob ID.
abbrev framing_bls : Bls
framing_bls = record {
  bls_aggregate = λ signatures. returned [];
  bls_aggregate_verify = λ signature keys message. returned true;
  bls_verify = λ key signature message. returned true;
  bls_confirmation_bytes = λ epoch blob_id object_id. 0 ∷ 0 ∷ 0 ∷ epoch ∷ 0 ∷ 0 ∷ 0 ∷ blob_id;
}

abbrev decode : String → Result Bytes
decode value = ok (8 ∷ 9 ∷ [])

abbrev two_members : WalrusCommittee
two_members = record {
  epoch = pos 5;
  n_shards = pos 4;
  members =
      record { node_id = "a"; shard_indices = 0 ∷ 1 ∷ []; network_address = "x"; public_key = [] }
      ∷ record { node_id = "b"; shard_indices = 2 ∷ 3 ∷ []; network_address = "y"; public_key = [] }
      ∷ [];
}

abbrev relay_message_json : JsonList
relay_message_json = cons (int (pos 0)) (
    cons (int (pos 0)) (
      cons (bool false) (
        cons (int (pos 5)) (
          cons (int (pos 0)) (cons (int (pos 0)) (cons (int (pos 0)) (cons (int (pos 77)) nil)))))))

abbrev relay_payload : JsonDict
relay_payload =
    field "signers" (list (cons (int (pos 1)) (cons (int (pos 0)) (cons (int (pos 1)) nil))))
      (field "serialized_message" (list relay_message_json) (field "signature" (str "CAk=") empty))

abbrev relay_certificate : Certificate
relay_certificate = record {
  serialized_message = 0 ∷ 0 ∷ 0 ∷ 5 ∷ 0 ∷ 0 ∷ 0 ∷ 77 ∷ [];
  aggregate_signature = 8 ∷ 9 ∷ [];
  signers_bitmap = 3 ∷ [];
  signer_positions = 0 ∷ 1 ∷ [];
  weight = 4;
}

relay_certificate_parsed :
    parse_relay_certificate framing_bls decode (dict relay_payload) two_members (77 ∷ []) none
    ≡ ok relay_certificate
unfolding parse_relay_certificate parse_fields item read_signers signer_ints read_message bytes_of
    byte_of check_blob signed_epoch read_signature pack_signers naturals distinct weight_at
    committee_size member_at pack_signers_bitmap is_quorum confirmation_message from_bytes_little
    sorted
relay_certificate_parsed = refl

parse_relay_certificate-IsChecked_example :
    (parse_relay_certificate framing_bls decode (dict relay_payload) two_members (77 ∷ []) none
      ≡ err relay_certificate_parse)
    ⊎ ((fields : JsonDict) × (c : Certificate) × (dict relay_payload ≡ dict fields)
        × (parse_relay_certificate framing_bls decode
              (dict relay_payload)
              two_members
              (77 ∷ [])
              none
            ≡ ok c)
        × IsChecked framing_bls decode (77 ∷ []) none fields two_members c)
parse_relay_certificate-IsChecked_example =
    parse_relay_certificate-IsChecked framing_bls decode (77 ∷ []) none (dict relay_payload)
      two_members
