-- ===== src/Errors.antt =====
-- Python exceptions as values: the exception classes that the modelled code raises (core/types/errors.py,
-- core/encoding/redstuff.py, core/encoding/quilt.py and the built-in ones), without their messages.
use pytusk.Prelude.{◌≡◌, refl, ◌⊎◌, inl, inr, Bool, true, false, Option, String}

pub data Error : Type 0 where
  value_error type_error key_error index_error runtime_error : Error
  zero_division_error overflow_error : Error
  -- a ValueError of a native extension, raised again as it came: its code is its first argument
  native_error : Option String → Error
  blob_too_large metadata_verification blob_decode sliver_verification : Error
  quilt_assembly : Error
  confirmation_mismatch invalid_confirmation quorum_not_reached : Error
  confirmation_collection sliver_fetch metadata_fetch : Error
  tip_ceiling_exceeded cancelled : Error
  sliver_upload epoch_mismatch certify_transaction native_upload chain_context native_read
        tip_config relay_certificate_parse :
      Error

pub data Result {ℓ} (A : Type ℓ) : Type ℓ where
  ok : A → Result A
  err : Error → Result A

-- An exception skips the rest of a block.
module _ {ℓ κ} {A : Type ℓ} {B : Type κ} where
  infixl 5 ◌>>=◌
  abbrev pub ◌>>=◌ : Result A → (A → Result B) → Result B
  err raised >>= next = err raised
  ok value >>= next = next value

  pub >>=-eq-ok :
      (first : Result A) (next : A → Result B) {out : B}
      → (first >>= next) ≡ ok out
      → (value : A) × (first ≡ ok value) × (next value ≡ ok out)
  >>=-eq-ok (err raised) next h = cc
  >>=-eq-ok (ok value) next h = (value, refl, h)

module _ {ℓ} {B : Type ℓ} where
  infixl 5 ◌>>◌
  abbrev pub ◌>>◌ : Result (Unit {0}) → Result B → Result B
  first >> next = first >>= λ _. next

-- if test: raise e
abbrev pub raise_if : Bool → Error → Result (Unit {0})
raise_if true e = err e
raise_if false e = ok tt

-- What a function of a native extension does: it returns, or raises a ValueError with a code.
pub data Answer {ℓ} (A : Type ℓ) : Type ℓ where
  returned : A → Answer A
  raised : Option String → Answer A

pub raise_if-eq-ok : (b : Bool) (e : Error) {u : Unit {0}} → raise_if b e ≡ ok u → b ≡ false
raise_if-eq-ok true e h = cc
raise_if-eq-ok false e h = refl

pub ok-injective {ℓ} : {A : Type ℓ} (a b : A) → ok a ≡ ok b → a ≡ b
ok-injective a b e = cc

pub Result-cases :
    {A : Type 0} (r : Result A) → ((e : Error) × (r ≡ err e)) ⊎ ((a : A) × (r ≡ ok a))
Result-cases (err e) = inl (e, refl)
Result-cases (ok a) = inr (a, refl)
