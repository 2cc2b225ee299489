-- ===== src/Prelude/Bits.antt =====
-- Single bits of a byte, by tables that are checked by evaluation.
use Prim.Native.Nat.{ℕ, zero, suc, ◌^◌, ◌<◌, bit_and, bit_or}
use mathlib.Core.Path.{◌≡◌, refl}
use mathlib.Core.Bool.{Bool, true, false, not, ◌&&◌, ◌||◌}
use native.Mathlib.Omega.{arith}
use pytusk.Prelude.Tests.{◌==◌, ltb, if◌then◌else◌}

-- A test holds at every number below k.
every : ℕ → (ℕ → Bool) → Bool
every zero test = true
every (suc k) test = if test k then every k test else false

every_at : (k i : ℕ) (test : ℕ → Bool) → i < k → every k test ≡ true → test i ≡ true
unfolding every
every_at zero i test below h = absurd (omega arith)
every_at (suc k) i test below h = ground (arith, every_at k i test)

-- bit i of a byte
abbrev pub bit : ℕ → ℕ → Bool
bit b i = not (bit_and b (2 ^ i) == 0)

same : Bool → Bool → Bool
same true b = b
same false b = not b

same_eq : (a b : Bool) → same a b ≡ true → a ≡ b
unfolding same
same_eq a b h = ground arith

bit-or_row : ℕ → ℕ → ℕ → Bool
unfolding same
bit-or_row b i j = same (bit (bit_or b (2 ^ i)) j) (i == j || bit b j)

bit-or_table :
    every 256 (λ b. every 8 (λ i. ltb (bit_or b (2 ^ i)) 256 && every 8 (bit-or_row b i))) ≡ true
unfolding every bit-or_row
bit-or_table = refl

and_left : (a b : Bool) → (a && b) ≡ true → a ≡ true
and_left a b h = ground arith

and_right : (a b : Bool) → (a && b) ≡ true → b ≡ true
and_right a b h = ground arith

bit-or_entry :
    (b i : ℕ) → b < 256 → i < 8 → (ltb (bit_or b (2 ^ i)) 256 && every 8 (bit-or_row b i)) ≡ true
bit-or_entry b i hb hi = every_at 8 i _ hi (every_at 256 b table hb bit-or_table)
  where
    table : ℕ → Bool
    table b = every 8 (λ i. ltb (bit_or b (2 ^ i)) 256 && every 8 (bit-or_row b i))

pub bit_or-IsByte : (b i : ℕ) → b < 256 → i < 8 → bit_or b (2 ^ i) < 256
bit_or-IsByte b i hb hi =
    let fits : ltb (bit_or b (2 ^ i)) 256 ≡ true = and_left _ _ (bit-or_entry b i hb hi) in
    ground arith

-- Setting bit i of a byte changes that bit and no other.
pub bit-bit_or :
    (b i j : ℕ) → b < 256 → i < 8 → j < 8 → bit (bit_or b (2 ^ i)) j ≡ (i == j || bit b j)
unfolding bit-or_row
bit-bit_or b i j hb hi hj =
    same_eq _ _ (every_at 8 j (bit-or_row b i) hj (and_right _ _ (bit-or_entry b i hb hi)))

zero_table : every 8 (λ i. same (bit 0 i) false) ≡ true
unfolding every same
zero_table = refl

pub bit-zero : (j : ℕ) → j < 8 → bit 0 j ≡ false
bit-zero j h = same_eq _ _ (every_at 8 j (λ i. same (bit 0 i) false) h zero_table)
