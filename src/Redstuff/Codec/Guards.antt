-- ===== src/Redstuff/Codec/Guards.antt =====
-- What the wrappers of the native functions let through (pytusk/core/encoding/redstuff.py).
use pytusk.Prelude.{ℕ, ◌≤◌, ◌<◌, ◌≡◌, length, arith, ◌⊎◌, if◌then◌else◌, ◌==◌}
use pytusk.Prelude.Bytes.{Bytes}
use pytusk.Errors.{ok, err, value_error, blob_too_large}
use pytusk.Redstuff.Sizes.{max_blob_size, symbol_size, rs2_max_symbol_size}
use pytusk.Redstuff.Sizes.Bounds.{max_blob_size_iff}
use pytusk.Redstuff.Codec.{Native, EncodedBlob, encode_blob}

module _ {Pair Handle : Type 0} (native : Native Pair Handle) where
  -- A blob that encode_blob encodes has a committee with shards, a usable symbol size, and the
  -- length and the shard count of the call on its result.
  pub encode_blob_lem :
      (content : Bytes) (n : ℕ) {e : EncodedBlob Pair}
      → encode_blob native content n ≡ ok e
      → (0 < n)
        × (symbol_size (length content) n ≤ rs2_max_symbol_size)
        × (e.unencoded_length ≡ length content)
        × (e.n_shards ≡ n)
  unfolding encode_blob
  encode_blob_lem content n h = ground (arith, max_blob_size_iff (length content) n)

  -- Whatever the extension would answer, encode_blob refuses every blob without shards and every
  -- blob over the size limit, each with its own error.
  pub encode_blob_refuses :
      (content : Bytes) (n : ℕ)
      → (n ≡ 0) ⊎ (max_blob_size n < length content)
      → encode_blob native content n ≡ (if n == 0 then err value_error else err blob_too_large)
  unfolding encode_blob
  encode_blob_refuses content n h = ground arith
