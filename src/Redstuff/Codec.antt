-- ===== src/Redstuff/Codec.antt =====
-- The wrappers of the native RedStuff functions in pytusk/core/encoding/redstuff.py. The extension
-- (pysui_fastcrypto) is not part of the repository: it is the record `Native` that each wrapper takes.
pub mod Guards
use text.Mathlib.Text.{◌==◌ as str_eq}
use pytusk.Prelude.{
  ℕ, String, Bool, true, false, ◌||◌, Option, none, some, List, [], ◌∷◌, ltb, length, if◌then◌else◌,
}
use pytusk.Prelude.Bytes.{Bytes}
use pytusk.Errors.{
  Error, Result, ok, err, Answer, returned, raised, ◌>>=◌, ◌>>◌, raise_if, value_error,
  native_error, blob_too_large, metadata_verification, sliver_verification, blob_decode,
}
use pytusk.Redstuff.Sizes.{max_blob_size}

pub data Axis : Type 0 where
  primary secondary : Axis

-- RedstuffEncodeResult, over the extension's type of sliver pairs.
pub record EncodeResult (Pair : Type 0) : Type 0 where
  pub blob_id : Bytes
  pub root_hash : Bytes
  pub slivers : List Pair
  pub metadata_bcs : Bytes

-- The functions of the extension, over its types of sliver pairs and of verified-metadata handles.
pub record Native (Pair Handle : Type 0) : Type 0 where
  pub redstuff_encode : Bytes → ℕ → Answer (EncodeResult Pair)
  pub redstuff_verify_metadata : Bytes → ℕ → Answer Handle
  pub redstuff_verify_sliver : Bytes → Handle → Axis → Answer (Unit {0})
  pub redstuff_decode_and_verify : List Bytes → Handle → Axis → Answer Bytes
  pub redstuff_decode : List Bytes → ℕ → ℕ → Axis → Answer Bytes
  pub handle_blob_id : Handle → Bytes
  pub handle_unencoded_length : Handle → ℕ
  pub handle_n_shards : Handle → ℕ

pub record EncodedBlob (Pair : Type 0) : Type 0 where
  pub blob_id : Bytes
  pub root_hash : Bytes
  pub unencoded_length : ℕ
  pub n_shards : ℕ
  pub slivers : List Pair
  pub metadata_bcs : Bytes

pub record VerifiedBlobMetadata (Handle : Type 0) : Type 0 where
  pub blob_id : Bytes
  pub unencoded_length : ℕ
  pub n_shards : ℕ
  pub handle : Handle

abbrev pub metadata_failure_codes : List String
metadata_failure_codes =
    "invalid_metadata_bcs" ∷ "blob_id_mismatch" ∷ "invalid_hash_count"
    ∷ "unencoded_length_too_large" ∷ []

abbrev pub decode_failure_codes : List String
decode_failure_codes = "decoding_unsuccessful" ∷ "blob_id_mismatch" ∷ "invalid_sliver_bcs" ∷ []

abbrev pub sliver_failure_codes : List String
sliver_failure_codes =
    "invalid_sliver_bcs" ∷ "index_too_large" ∷ "sliver_size_mismatch" ∷ "symbol_size_mismatch"
    ∷ "merkle_root_mismatch" ∷ []

-- code in codes
unfoldable pub among : Option String → List String → Bool
among none codes = false
among (some code) [] = false
among (some code) (c ∷ codes) = str_eq code c || among (some code) codes

-- except ValueError: a listed code becomes the error `wrapped`, any other goes on as it came.
unfoldable pub rewrap {ℓ} : {A : Type ℓ} → List String → Error → Answer A → Result A
rewrap codes wrapped (returned a) = ok a
rewrap codes wrapped (raised code) =
    if among code codes then err wrapped else err (native_error code)

module _ {Pair Handle : Type 0} (native : Native Pair Handle) where
  open native use {
    redstuff_encode, redstuff_verify_metadata, redstuff_verify_sliver, redstuff_decode_and_verify,
    redstuff_decode, handle_blob_id, handle_unencoded_length, handle_n_shards,
  }

  encoded : ℕ → ℕ → EncodeResult Pair → EncodedBlob Pair
  encoded size n_shards result = record {
    blob_id = result.blob_id;
    root_hash = result.root_hash;
    unencoded_length = size;
    n_shards = n_shards;
    slivers = result.slivers;
    metadata_bcs = result.metadata_bcs;
  }

  unfoldable pub encode_blob : Bytes → ℕ → Result (EncodedBlob Pair)
  unfolding encoded rewrap
  encode_blob content n_shards = do
    raise_if (ltb n_shards 1) value_error
    raise_if (ltb (max_blob_size n_shards) (length content)) blob_too_large
    result ← rewrap [] value_error (redstuff_encode content n_shards)
    ok (encoded (length content) n_shards result)

  unfoldable pub verify_blob_metadata : Bytes → ℕ → Result (VerifiedBlobMetadata Handle)
  unfolding rewrap
  verify_blob_metadata metadata_bcs n_shards = do
    raise_if (ltb n_shards 1) value_error
    handle ←
        rewrap metadata_failure_codes metadata_verification
          (redstuff_verify_metadata metadata_bcs n_shards)
    ok (record {
      blob_id = handle_blob_id handle;
      unencoded_length = handle_unencoded_length handle;
      n_shards = handle_n_shards handle;
      handle = handle;
    })

  unfoldable pub verify_sliver : Bytes → VerifiedBlobMetadata Handle → Axis → Result (Unit {0})
  unfolding rewrap
  verify_sliver sliver metadata axis =
      rewrap sliver_failure_codes sliver_verification
        (redstuff_verify_sliver sliver metadata.handle axis)

  unfoldable pub decode_blob : List Bytes → VerifiedBlobMetadata Handle → Axis → Bool → Result Bytes
  unfolding rewrap
  decode_blob slivers metadata axis verify = rewrap decode_failure_codes blob_decode (
      if verify
      then redstuff_decode_and_verify slivers metadata.handle axis
      else redstuff_decode slivers metadata.unencoded_length metadata.n_shards axis)
