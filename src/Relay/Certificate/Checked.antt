-- ===== src/Relay/Certificate/Checked.antt =====
-- What a certificate that parse_relay_certificate (pytusk/core/relay_upload/relay_certify.py) returns has been checked
-- for.
use pytusk.Prelude.{
  ℕ, ◌+◌, ◌*◌, ◌≤◌, ◌≡◌, ◌⊎◌, refl, ap, ◌∙◌, arith, String, false, not, Option, List, length, ltb,
  Bool-cases, inl, inr, leb→le,
}
use pytusk.Prelude.Int.{pos_part}
use pytusk.Prelude.Bytes.{Bytes, bytes_eq, bytes_eq_iff}
use pytusk.Errors.{
  Result, ok, err, ◌>>=◌, >>=-eq-ok, raise_if, raise_if-eq-ok, relay_certificate_parse,
}
use pytusk.Committee.Json.{JsonValue, str, list, dict, JsonDict}
use pytusk.Committee.Members.{WalrusCommittee, committee_size}
use pytusk.Certification.Quorum.{is_quorum}
use pytusk.Certification.Certificate.{Certificate, Bls, confirmation_message}
use pytusk.Relay.Certificate.{
  item, as_parse_error, read_signers, read_message, signed_epoch, pack_signers, read_signature,
  check_blob, parse_fields, parse_relay_certificate,
}
use pytusk.Relay.Certificate.Readers.{
  IsParse, as_parse_error-IsParse, raise_if-IsParse, >>=-IsParse, read_signers-IsParse,
  read_message-IsParse, read_signers-json, as_parse_error-ok, IsPacked, pack_signers-IsPacked,
  shards_at, json_ints, ints, weight_at-shards,
}

module _ (bls : Bls) (decode_standard_base64 : String → Result Bytes) where
  read_signature-IsParse :
      (value : JsonValue) → IsParse (read_signature bls decode_standard_base64 value)
  unfolding read_signature
  read_signature-IsParse (str value) = as_parse_error-IsParse (decode_standard_base64 value)
  read_signature-IsParse _ = λ e h. cc

  read_signature-decoded :
      (value : JsonValue) (signature : Bytes)
      → read_signature bls decode_standard_base64 value ≡ ok signature
      → (text : String) × (value ≡ str text) × (decode_standard_base64 text ≡ ok signature)
  unfolding read_signature
  read_signature-decoded (str text) signature e =
      (text, refl, as_parse_error-ok (decode_standard_base64 text) signature e)
  read_signature-decoded _ signature e = cc

  module _ (blob_id : Bytes) (object_id : Option Bytes) where
    check_blob-IsParse :
        (message : Bytes)
        → IsParse (check_blob bls decode_standard_base64 message blob_id object_id)
    unfolding check_blob
    check_blob-IsParse message =
        >>=-IsParse (raise_if (ltb (length message) 7) relay_certificate_parse) _
          (raise_if-IsParse (ltb (length message) 7)) (λ u. raise_if-IsParse _)

    check_blob-confirms :
        (message : Bytes)
        → check_blob bls decode_standard_base64 message blob_id object_id ≡ ok tt
        → message ≡ confirmation_message bls (signed_epoch message) blob_id object_id
    unfolding check_blob
    check_blob-confirms message e =
        let expected = confirmation_message bls (signed_epoch message) blob_id object_id in
        let (u, _, e1) =
          >>=-eq-ok (raise_if (ltb (length message) 7) relay_certificate_parse) _ e in
        let equal : not (bytes_eq message expected) ≡ false =
          raise_if-eq-ok _ relay_certificate_parse e1 in
        (bytes_eq_iff message expected).0 (ground (arith, equal))

    -- What is known of a certificate from the fields of a relay's answer.
    pub record IsChecked (fields : JsonDict) (committee : WalrusCommittee) (c : Certificate)
        : Type 0 where
      pub signers : List ℕ
      pub listed : item "signers" fields ≡ ok (list (json_ints (ints signers)))
      pub packed : IsPacked signers (committee_size committee) c.signer_positions c.signers_bitmap
      pub confirms :
          c.serialized_message
          ≡ confirmation_message bls (signed_epoch c.serialized_message) blob_id object_id
      pub text : String
      pub signature : item "signature" fields ≡ ok (str text)
      pub decoded : decode_standard_base64 text ≡ ok c.aggregate_signature
      pub weighed : c.weight ≡ shards_at committee.members c.signer_positions
      pub quorum : 2 * pos_part committee.n_shards + 1 ≤ 3 * c.weight

    module _ (fields : JsonDict) (committee : WalrusCommittee) where
      abbrev IsOutcome : Result Certificate → Type 0
      IsOutcome r =
          (r ≡ err relay_certificate_parse)
          ⊎ ((c : Certificate) × (r ≡ ok c) × IsChecked fields committee c)

      stage :
          {A : Type 0} (first : Result A) (next : A → Result Certificate)
          → IsParse first
          → ((value : A) → first ≡ ok value → IsOutcome (next value))
          → IsOutcome (first >>= next)
      stage (ok value) next f n = n value refl
      stage (err raised) next f n = inl (ap err (f raised refl))

      -- Once the fields are read: the signers are packed and weighed.
      parse_fields-IsOutcome :
          IsOutcome (parse_fields bls decode_standard_base64 fields committee blob_id object_id)
      unfolding parse_fields committee_size is_quorum
      parse_fields-IsOutcome =
          stage (as_parse_error (item "signers" fields)) _
            (as_parse_error-IsParse (item "signers" fields))
            (λ raw_signers s.
              stage (as_parse_error (item "serialized_message" fields)) _
                (as_parse_error-IsParse (item "serialized_message" fields))
                (λ raw_message m.
                  stage (as_parse_error (item "signature" fields)) _
                    (as_parse_error-IsParse (item "signature" fields))
                    (λ raw_signature g.
                      stage (read_signers raw_signers) _ (read_signers-IsParse raw_signers)
                        (λ signers s1.
                          stage (read_message raw_message) _ (read_message-IsParse raw_message)
                            (λ message m1.
                              stage
                                (check_blob bls decode_standard_base64 message blob_id object_id) _
                                (check_blob-IsParse message)
                                (λ u c.
                                  stage (read_signature bls decode_standard_base64 raw_signature) _
                                    (read_signature-IsParse raw_signature)
                                    (λ signature g1.
                                      stage
                                        (as_parse_error
                                          (pack_signers signers (committee_size committee)))
                                        _
                                        (as_parse_error-IsParse
                                          (pack_signers signers (committee_size committee)))
                                        (λ packed p.
                                          let (checked, listed, is_packed) =
                                            pack_signers-IsPacked signers (committee_size committee)
                                              packed (as_parse_error-ok _ _ p) in
                                          let (text, t, decoded) =
                                            read_signature-decoded raw_signature signature g1 in
                                          let total =
                                            shards_at committee.members packed.positions in
                                          rw
                                            (weight_at-shards committee.members packed.positions
                                              is_packed.within)
                                            (elim (Bool-cases
                                              (is_quorum total (pos_part committee.n_shards))) [
                                                | inr n ↦ inl (rw n refl)
                                                | inl y ↦ inr (
                                                  _,
                                                  rw y refl,
                                                  record {
                                                    signers = checked;
                                                    listed =
                                                        as_parse_error-ok _ _ s
                                                        ∙ ap ok (
                                                            read_signers-json raw_signers signers s1
                                                            ∙ ap (λ ns. list (json_ints ns))
                                                            listed);
                                                    packed = is_packed;
                                                    confirms = check_blob-confirms message c;
                                                    text = text;
                                                    signature = as_parse_error-ok _ _ g ∙ ap ok t;
                                                    decoded = decoded;
                                                    weighed = refl;
                                                    quorum = leb→le _ _ y;
                                                  },
                                                )
                                              ])))))))))

    -- Whatever a relay returns as its certificate: parse_relay_certificate raises a RelayCertificateParseError, or the
    -- payload is an object and the certificate is checked. Its message is the committee's confirmation of this
    -- blob and this persistence, at the epoch that the message itself names. Its signers are those that the
    -- payload lists, each once, in ascending order, and all of them members. The bitmap unpacks to these.
    -- The signature is the decoded one. Its weight is the number of the signers' shards, and a quorum.
    pub parse_relay_certificate-IsChecked :
        (payload : JsonValue) (committee : WalrusCommittee)
        → let parsed =
            parse_relay_certificate bls decode_standard_base64 payload committee blob_id
              object_id in
          (parsed ≡ err relay_certificate_parse)
          ⊎ ((fields : JsonDict) × (c : Certificate) × (payload ≡ dict fields)
              × (parsed ≡ ok c)
              × IsChecked fields committee c)
    unfolding parse_relay_certificate
    parse_relay_certificate-IsChecked (dict fields) committee =
        elim (parse_fields-IsOutcome fields committee) [
          | inl raised ↦ inl raised
          | inr (c, returned, checked) ↦ inr (fields, c, refl, returned, checked)
        ]
    parse_relay_certificate-IsChecked _ committee = inl refl
