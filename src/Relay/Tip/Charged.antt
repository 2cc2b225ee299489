-- ===== src/Relay/Tip/Charged.antt =====
-- What quote_tip and assert_tip_within_ceiling (pytusk/core/relay_upload/tip.py) let a relay charge.
use pytusk.Prelude.{
  ℕ, ◌+◌, ◌*◌, ◌/◌, ◌≤◌, ◌≡◌, refl, ap, ◌∙◌, sym, arith, Option, none, some, leb, leb→le,
  Bool-cases, Option-cases, inl, inr,
}
use pytusk.Errors.{ok, ok-injective}
use pytusk.Redstuff.Sizes.{encoded_blob_length}
use pytusk.Relay.Tip.{
  TipKind, const_tip, linear_tip, TipConfig, TipQuote, compute_tip, assert_tip_within_ceiling,
  fetch_tip_config, quoted, quote_tip,
}

-- The charge for a number of started KiB of the encoded blob.
abbrev charge : TipKind → ℕ → ℕ
charge (const_tip amount) kibs = amount
charge (linear_tip base encoded_size_mul_per_kib) kibs = base + kibs * encoded_size_mul_per_kib

-- The least number of KiB that hold the encoded blob.
pub record HoldKibs (size kibs : ℕ) : Type 0 where
  pub holds : size ≤ kibs * 1024
  pub least : (k : ℕ) → size ≤ k * 1024 → kibs ≤ k

-- What is paid after a quote has passed a ceiling.
pub data Charged (config : TipConfig) (unencoded_length n_shards : ℕ) (max_tip : Option ℕ)
    : TipQuote → Type 0 where
  no_charge :
      (quote : TipQuote)
      → config.kind ≡ none
      → quote.amount ≡ none
      → quote.address ≡ none
      → Charged config unencoded_length n_shards max_tip quote
  charged :
      (quote : TipQuote) (kind : TipKind) (kibs : ℕ)
      → config.kind ≡ some kind
      → HoldKibs (encoded_blob_length unencoded_length n_shards) kibs
      → quote.amount ≡ some (charge kind kibs)
      → quote.address ≡ config.address
      → ((ceiling : ℕ) → max_tip ≡ some ceiling → charge kind kibs ≤ ceiling)
      → Charged config unencoded_length n_shards max_tip quote

kibs_of : (size : ℕ) → HoldKibs size ((size + 1023) / 1024)
kibs_of size = record { holds = omega arith; least = λ k h. omega arith }

compute_tip-charge :
    (kind : TipKind) (unencoded_length n_shards : ℕ)
    → compute_tip kind unencoded_length n_shards
      ≡ charge kind ((encoded_blob_length unencoded_length n_shards + 1023) / 1024)
unfolding compute_tip
compute_tip-charge (const_tip amount) unencoded_length n_shards = refl
compute_tip-charge (linear_tip base per_kib) unencoded_length n_shards = refl

within_ceiling :
    (quote : TipQuote) (amount : ℕ) (max_tip : Option ℕ)
    → quote.amount ≡ some amount
    → assert_tip_within_ceiling quote max_tip ≡ ok tt
    → (ceiling : ℕ) → max_tip ≡ some ceiling
    → amount ≤ ceiling
unfolding assert_tip_within_ceiling
within_ceiling quote amount none q e ceiling m = cc
within_ceiling quote amount (some max_tip) q e ceiling m = elim (Bool-cases (leb amount max_tip)) [
  | inl y ↦ let same : max_tip ≡ ceiling = cc in omega (arith, leb→le amount max_tip y, same)
  | inr n ↦ cc (rw n at (rw q at e))
]

quoted_kind :
    (config : TipConfig) (unencoded_length n_shards : ℕ) (kind : TipKind)
    → config.kind ≡ some kind
    → quoted config unencoded_length n_shards ≡ record {
      address = config.address;
      amount = some (compute_tip kind unencoded_length n_shards);
      kind = some kind;
    }
unfolding quoted
quoted_kind config unencoded_length n_shards kind k = rw k refl

quoted_free :
    (config : TipConfig) (unencoded_length n_shards : ℕ)
    → config.kind ≡ none
    → quoted config unencoded_length n_shards
      ≡ record { address = none; amount = none; kind = none }
unfolding quoted
quoted_free config unencoded_length n_shards k = rw k refl

quoted-Charged :
    (config : TipConfig) (unencoded_length n_shards : ℕ) (max_tip : Option ℕ) (quote : TipQuote)
    → quoted config unencoded_length n_shards ≡ quote
    → assert_tip_within_ceiling quote max_tip ≡ ok tt
    → Charged config unencoded_length n_shards max_tip quote
quoted-Charged config unencoded_length n_shards max_tip quote q a =
    elim (Option-cases config.kind) [
      | inl k ↦
          let free = sym q ∙ quoted_free config unencoded_length n_shards k in
          no_charge quote k (ap (λ t. t.amount) free) (ap (λ t. t.address) free)
      | inr (kind, k) ↦
          let same = sym q ∙ quoted_kind config unencoded_length n_shards kind k in
          let amount =
            ap (λ t. t.amount) same ∙ ap some (compute_tip-charge kind unencoded_length n_shards) in
          charged quote kind _ k (kibs_of (encoded_blob_length unencoded_length n_shards)) amount
            (ap (λ t. t.address) same) (within_ceiling quote _ max_tip amount a)
    ]

-- If quote_tip returns a quote for a relay's tip config and the quote passes the ceiling: a relay without a tip kind
-- is paid nothing. Otherwise the quote names the relay's address and the amount of the tip kind for the least number
-- of KiB that hold the encoded blob, and this amount is at most the ceiling, if there is one.
pub quote_tip-Charged :
    (config : TipConfig) (unencoded_length n_shards : ℕ) (max_tip : Option ℕ) {quote : TipQuote}
    → quote_tip (some config) unencoded_length n_shards ≡ ok quote
    → assert_tip_within_ceiling quote max_tip ≡ ok tt
    → Charged config unencoded_length n_shards max_tip quote
unfolding quote_tip fetch_tip_config
quote_tip-Charged config unencoded_length n_shards max_tip {quote} q a =
    quoted-Charged config unencoded_length n_shards max_tip quote (ok-injective _ _ q) a
