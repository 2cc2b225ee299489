-- ===== src/Prelude/Arith.antt =====
-- The integer divisions of the source.
use Prim.Native.Nat.{ℕ, ◌+◌, ◌-◌, ◌*◌, ◌/◌, ◌≤◌, ◌<◌}
use native.Mathlib.Omega.{arith}

-- Ceiling division of naturals: `-(-a // b)`, and `math.ceil(a / b)` for an `a` below 2 ^ 53, where
-- the correctly rounded quotient of Python's true division has the exact ceiling.
abbrev pub div_ceil : ℕ → ℕ → ℕ
div_ceil a b = (a + (b - 1)) / b

pub le-div_ceil : (a b : ℕ) → 0 < b → a ≤ div_ceil a b * b
le-div_ceil a b h = grind arith

pub div_ceil-le : (a b k : ℕ) → 0 < b → a ≤ k * b → div_ceil a b ≤ k
div_ceil-le a b k h p = grind arith
