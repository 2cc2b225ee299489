-- ===== src/Relay/Certificate.antt =====
-- parse_relay_certificate of pytusk/core/relay_upload/relay_certify.py, over the JSON values of Committee.Json and the
-- certificates of Certification. base64.b64decode is a parameter, as are the BLS functions.
pub mod Readers
pub mod Checked
mod Runs
use text.Mathlib.Text.{◌==◌ as str_eq}
use pytusk.Prelude.{
  ℕ, ◌+◌, String, Bool, true, false, not, Option, List, [], ◌∷◌, take, drop, length, leb, ltb,
  contains, sorted, if◌then◌else◌,
}
use pytusk.Prelude.Int.{ℤ, pos, negsuc, pos_part}
use pytusk.Prelude.Bytes.{Bytes, bytes_eq, from_bytes_little}
use pytusk.Errors.{
  Result, ok, err, ◌>>=◌, ◌>>◌, raise_if, key_error, type_error, value_error,
  relay_certificate_parse,
}
use pytusk.Committee.Json.{
  JsonValue, str, int, bool, list, dict, JsonList, nil, cons, JsonDict, empty, field,
}
use pytusk.Committee.Members.{WalrusCommitteeMember, WalrusCommittee, committee_size, member_at}
use pytusk.Certification.Bitmap.{pack_signers_bitmap}
use pytusk.Certification.Quorum.{is_quorum}
use pytusk.Certification.Certificate.{Certificate, Bls, confirmation_message, is_empty}

abbrev pub epoch_offset : ℕ
epoch_offset = 3

-- payload[key]
unfoldable pub item : String → JsonDict → Result JsonValue
item key empty = err key_error
item key (field k v rest) = let later = item key rest in if str_eq k key then ok v else later

-- `except …: raise RelayCertificateParseError`, around what raises such exceptions only.
abbrev pub as_parse_error : {A : Type 0} → Result A → Result A
as_parse_error (ok value) = ok value
as_parse_error (err e) = err relay_certificate_parse

-- A bool is no integer here.
unfoldable pub signer_ints : JsonList → Result (List ℤ)
signer_ints nil = ok []
signer_ints (cons (int n) rest) = do ns ← signer_ints rest; ok (n ∷ ns)
signer_ints (cons _ rest) = err relay_certificate_parse

unfoldable pub read_signers : JsonValue → Result (List ℤ)
unfolding signer_ints
read_signers (list entries) = do
  signers ← signer_ints entries
  raise_if (is_empty signers) relay_certificate_parse
  ok signers
read_signers _ = err relay_certificate_parse

-- An item of the argument of `bytes`, for which a bool is an integer.
unfoldable pub byte_of : JsonValue → Result ℕ
byte_of (int (pos n)) = do raise_if (leb 256 n) value_error; ok n
byte_of (int (negsuc n)) = err value_error
byte_of (bool true) = ok 1
byte_of (bool false) = ok 0
byte_of _ = err type_error

unfoldable pub bytes_of : JsonList → Result Bytes
unfolding byte_of
bytes_of nil = ok []
bytes_of (cons entry rest) = do b ← byte_of entry; bs ← bytes_of rest; ok (b ∷ bs)

unfoldable pub read_message : JsonValue → Result Bytes
unfolding bytes_of
read_message (list entries) = as_parse_error (bytes_of entries)
read_message _ = err relay_certificate_parse

unfoldable pub signed_epoch : Bytes → ℕ
signed_epoch message = from_bytes_little (take 4 (drop epoch_offset message))

-- set(raw_signers), as a list.
unfoldable pub distinct : List ℕ → List ℕ
distinct [] = []
distinct (p ∷ ps) = let rest = distinct ps in if contains p rest then rest else p ∷ rest

-- pack_signers_bitmap refuses a negative position.
unfoldable pub naturals : List ℤ → Result (List ℕ)
naturals [] = ok []
naturals (pos p ∷ rest) = do ps ← naturals rest; ok (p ∷ ps)
naturals (negsuc p ∷ rest) = err value_error

pub record PackedSigners : Type 0 where
  pub positions : List ℕ
  pub bitmap : Bytes

unfoldable pub pack_signers : List ℤ → ℕ → Result PackedSigners
unfolding naturals distinct
pack_signers raw_signers size = do
  ps ← naturals raw_signers
  signers_bitmap ← pack_signers_bitmap (sorted (distinct ps)) size
  ok (record { positions = sorted (distinct ps); bitmap = signers_bitmap })

unfoldable pub weight_at : List WalrusCommitteeMember → List ℕ → Result ℕ
unfolding member_at
weight_at members [] = ok 0
weight_at members (p ∷ ps) = do
  m ← member_at members (pos p)
  weight ← weight_at members ps
  ok (length m.shard_indices + weight)

module _ (bls : Bls) (decode_standard_base64 : String → Result Bytes) where
  unfoldable pub read_signature : JsonValue → Result Bytes
  read_signature (str value) = as_parse_error (decode_standard_base64 value)
  read_signature _ = err relay_certificate_parse

  unfoldable pub check_blob : Bytes → Bytes → Option Bytes → Result (Unit {0})
  unfolding signed_epoch
  check_blob message blob_id object_id = do
    raise_if (ltb (length message) (epoch_offset + 4)) relay_certificate_parse
    raise_if
        (not (bytes_eq message (confirmation_message bls (signed_epoch message) blob_id object_id)))
        relay_certificate_parse

  unfoldable pub parse_fields :
      JsonDict → WalrusCommittee → Bytes → Option Bytes → Result Certificate
  unfolding item read_signers read_message read_signature check_blob pack_signers weight_at
      is_quorum
  parse_fields fields committee blob_id object_id = do
    raw_signers ← as_parse_error (item "signers" fields)
    raw_message ← as_parse_error (item "serialized_message" fields)
    raw_signature ← as_parse_error (item "signature" fields)
    signers ← read_signers raw_signers
    message ← read_message raw_message
    check_blob message blob_id object_id
    signature ← read_signature raw_signature
    packed ← as_parse_error (pack_signers signers (committee_size committee))
    signers_weight ← weight_at committee.members packed.positions
    raise_if (not (is_quorum signers_weight (pos_part committee.n_shards))) relay_certificate_parse
    ok (record {
      serialized_message = message;
      aggregate_signature = signature;
      signers_bitmap = packed.bitmap;
      signer_positions = packed.positions;
      weight = signers_weight;
    })

  unfoldable pub parse_relay_certificate :
      JsonValue → WalrusCommittee → Bytes → Option Bytes → Result Certificate
  unfolding parse_fields
  parse_relay_certificate (dict fields) committee blob_id object_id =
      parse_fields fields committee blob_id object_id
  parse_relay_certificate _ committee blob_id object_id = err relay_certificate_parse
