-- ===== src/Relay/Tip/Package.antt =====
-- The authentication package of a tip (pytusk/core/types/tips.py) is read back.
use mathlib.Core.List.{append_assoc}
use pytusk.Prelude.{
  ◌<◌, ◌^◌, ◌≡◌, refl, ap, ◌∙◌, sym, arith, ◌++◌, length, take, drop, length-append,
}
use pytusk.Prelude.Bytes.{
  Bytes, from_bytes_little, to_bytes_little, from_bytes-to_bytes, length-to_bytes_little,
}
use pytusk.Prelude.Slices.{take-append, drop-append}
use pytusk.Errors.{ok}
use pytusk.Quilt.Patches.Limits.{to_bytes_fits}
use pytusk.Relay.Tip.{build_auth_package, bcs_of}

-- The fields that a relay reads from the first input of a transaction: two digests of 32 bytes and a u64.
pub record IsPackage (bytes payload nonce : Bytes) (sha256 : Bytes → Bytes) : Type 0 where
  pub size : length bytes ≡ 72
  pub blob : take 32 bytes ≡ sha256 payload
  pub tip_nonce : take 32 (drop 32 bytes) ≡ sha256 nonce
  pub unencoded : from_bytes_little (drop 64 bytes) ≡ length payload

-- For a digest of 32 bytes and fewer than 2 ^ 64 bytes of data: the package that build_auth_package makes serializes
-- to 72 bytes, in which a reader finds the digests of the data and of the nonce, and the data's length.
pub bcs-IsPackage :
    (sha256 : Bytes → Bytes)
    → ((bytes : Bytes) → length (sha256 bytes) ≡ 32)
    → (nonce payload : Bytes) → length payload < 256 ^ 8
    → (bytes : Bytes) × (bcs_of (build_auth_package sha256 nonce payload) ≡ ok bytes)
      × IsPackage bytes payload nonce sha256
unfolding bcs_of build_auth_package
bcs-IsPackage sha256 digests nonce payload low =
    let a = sha256 payload in
    let b = sha256 nonce in
    let c = to_bytes_little 8 (length payload) in
    let la = digests payload in
    let lb = digests nonce in
    let whole : drop 64 (a ++ (b ++ c)) ≡ c =
      ap (drop 64) (sym (append_assoc a b c))
      ∙ drop-append (a ++ b) c 64 (omega (arith, la, lb, length-append a b)) in
    (
      a ++ (b ++ c),
      rw (to_bytes_fits 8 (length payload) low) refl,
      record {
        size = omega (
          arith,
          la,
          lb,
          length-append a (b ++ c),
          length-append b c,
          length-to_bytes_little 8 (length payload),
        );
        blob = take-append a (b ++ c) 32 (sym la);
        tip_nonce = ap (take 32) (drop-append a (b ++ c) 32 (sym la)) ∙ take-append b c 32 (sym lb);
        unencoded = ap from_bytes_little whole ∙ from_bytes-to_bytes 8 (length payload) low;
      },
    )
