-- ===== src/Relay/Tip.antt =====
-- The tip of a relay: pytusk/core/types/tips.py, and build_auth_package, compute_tip, assert_tip_within_ceiling,
-- fetch_tip_config and quote_tip of pytusk/core/relay_upload/tip.py. The SHA-256 digest, the random nonce and the
-- relay's answer are parameters.
pub mod Charged
pub mod Package
use pytusk.Prelude.{
  ℕ, ◌+◌, ◌*◌, ◌/◌, String, Bool, true, false, not, Option, none, some, ◌++◌, length, leb,
  if◌then◌else◌,
}
use pytusk.Prelude.Bytes.{Bytes}
use pytusk.Errors.{Result, ok, err, raise_if, ◌>>=◌, tip_config, tip_ceiling_exceeded}
use pytusk.Redstuff.Sizes.{encoded_blob_length}
use pytusk.Quilt.Patches.{to_bytes}

pub data TipKind : Type 0 where
  const_tip : ℕ → TipKind
  linear_tip : ℕ → ℕ → TipKind

pub record TipConfig : Type 0 where
  pub address : Option String
  pub kind : Option TipKind

pub record TipQuote : Type 0 where
  pub address : Option String
  pub amount : Option ℕ
  pub kind : Option TipKind

unfoldable pub compute_tip : TipKind → ℕ → ℕ → ℕ
compute_tip (const_tip amount) unencoded_length n_shards = amount
compute_tip (linear_tip base encoded_size_mul_per_kib) unencoded_length n_shards =
    let kibs = (encoded_blob_length unencoded_length n_shards + 1023) / 1024 in
    base + kibs * encoded_size_mul_per_kib

-- A quote without an amount is accepted at any ceiling.
unfoldable pub assert_tip_within_ceiling : TipQuote → Option ℕ → Result (Unit {0})
assert_tip_within_ceiling quote none = ok tt
assert_tip_within_ceiling quote (some max_tip) = elim quote.amount [
  | none ↦ ok tt
  | some amount ↦ raise_if (not (leb amount max_tip)) tip_ceiling_exceeded
]

-- What the relay answers to a ReadTipConfig, if the request succeeds.
unfoldable pub fetch_tip_config : Option TipConfig → Result TipConfig
fetch_tip_config none = err tip_config
fetch_tip_config (some config) = ok config

-- config.requires_payment is that it has a kind.
unfoldable pub quoted : TipConfig → ℕ → ℕ → TipQuote
unfolding compute_tip
quoted config unencoded_length n_shards = elim config.kind [
  | none ↦ record { address = none; amount = none; kind = none }
  | some kind ↦ record {
    address = config.address;
    amount = some (compute_tip kind unencoded_length n_shards);
    kind = some kind;
  }
]

unfoldable pub quote_tip : Option TipConfig → ℕ → ℕ → Result TipQuote
unfolding fetch_tip_config quoted
quote_tip answer unencoded_length n_shards = do
  config ← fetch_tip_config answer
  ok (quoted config unencoded_length n_shards)

pub record AuthPackage : Type 0 where
  pub nonce : Bytes
  pub blob_digest : Bytes
  pub nonce_digest : Bytes
  pub unencoded_length : ℕ

unfoldable pub build_auth_package : (Bytes → Bytes) → Bytes → Bytes → AuthPackage
build_auth_package sha256 nonce payload = record {
  nonce = nonce;
  blob_digest = sha256 payload;
  nonce_digest = sha256 nonce;
  unencoded_length = length payload;
}

-- AuthPackage.bcs
unfoldable pub bcs_of : AuthPackage → Result Bytes
unfolding to_bytes
bcs_of auth = do
  size ← to_bytes 8 auth.unencoded_length
  ok (auth.blob_digest ++ (auth.nonce_digest ++ size))
