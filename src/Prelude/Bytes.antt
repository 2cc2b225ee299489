-- ===== src/Prelude/Bytes.antt =====
-- Python's `bytes` as lists of numbers, and the conversions of `int.from_bytes`/`int.to_bytes`.
use Prim.Native.Nat.{ℕ, zero, suc, ◌+◌, ◌*◌, ◌/◌, ◌%◌, ◌^◌, ◌<◌}
use mathlib.Core.Path.{◌≡◌, refl, ap, ◌∙◌}
use mathlib.Core.Bool.{Bool, true, false, ◌&&◌}
use mathlib.Core.Logic.{◌↔◌}
use mathlib.Core.List.{List, [], ◌∷◌}
use native.Mathlib.Omega.{arith}
use native.Mathlib.Nat.{pow-succ'}
use pytusk.Prelude.Tests.{◌==◌}
use pytusk.Prelude.Lists.{length}

abbrev pub Bytes : Type 0
Bytes = List ℕ

abbrev pub IsByte : ℕ → Type 0
IsByte b = b < 256

-- bytes == bytes
abbrev pub bytes_eq : Bytes → Bytes → Bool
bytes_eq [] [] = true
bytes_eq [] (y ∷ ys) = false
bytes_eq (x ∷ xs) [] = false
bytes_eq (x ∷ xs) (y ∷ ys) = x == y && bytes_eq xs ys

pub bytes_eq_iff : (xs ys : Bytes) → (bytes_eq xs ys ≡ true) ↔ (xs ≡ ys)
bytes_eq_iff [] [] = ground arith
bytes_eq_iff [] (y ∷ ys) = ground arith
bytes_eq_iff (x ∷ xs) [] = ground arith
bytes_eq_iff (x ∷ xs) (y ∷ ys) = ground (arith, bytes_eq_iff xs ys)

-- int.from_bytes(b, "little")
unfoldable pub from_bytes_little : Bytes → ℕ
from_bytes_little [] = 0
from_bytes_little (b ∷ bs) = b + 256 * from_bytes_little bs

-- int.from_bytes(b, "big")
from_bytes_big_loop : ℕ → Bytes → ℕ
from_bytes_big_loop acc [] = acc
from_bytes_big_loop acc (b ∷ bs) = from_bytes_big_loop (acc * 256 + b) bs

unfoldable pub from_bytes_big : Bytes → ℕ
unfolding from_bytes_big_loop
from_bytes_big bs = from_bytes_big_loop 0 bs

-- n.to_bytes(width, "little"), for an n that fits the width.
unfoldable pub to_bytes_little : ℕ → ℕ → Bytes
to_bytes_little zero n = []
to_bytes_little (suc w) n = n % 256 ∷ to_bytes_little w (n / 256)

pub length-to_bytes_little : (w n : ℕ) → length (to_bytes_little w n) ≡ w
unfolding to_bytes_little
length-to_bytes_little zero n = refl
length-to_bytes_little (suc w) n = ap suc (length-to_bytes_little w (n / 256))

quotient-lt : (n k : ℕ) → n < 256 * k → n / 256 < k
quotient-lt n k h = omega arith

digits_back : (n : ℕ) → n % 256 + 256 * (n / 256) ≡ n
digits_back n = omega arith

-- A number that fits its width is read back.
pub from_bytes-to_bytes : (w n : ℕ) → n < 256 ^ w → from_bytes_little (to_bytes_little w n) ≡ n
unfolding from_bytes_little to_bytes_little
from_bytes-to_bytes zero n h = omega arith
from_bytes-to_bytes (suc w) n h =
    ap (λ k. n % 256 + 256 * k)
      (from_bytes-to_bytes w (n / 256) (quotient-lt n (256 ^ w) (omega (arith, pow-succ' 256 w))))
    ∙ digits_back n
