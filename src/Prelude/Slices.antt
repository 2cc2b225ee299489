-- ===== src/Prelude/Slices.antt =====
-- Slices of a list, and the assignment of one: Python's `xs[start : start + len(ys)] = ys`.
use Prim.Native.Nat.{ℕ, zero, suc, ◌+◌, ◌-◌, ◌<◌, ◌≤◌, min}
use mathlib.Core.Path.{◌≡◌, refl, ap}
use mathlib.Core.Bool.{◌&&◌}
use mathlib.Core.List.{List, [], ◌∷◌, ◌++◌}
use native.Mathlib.Omega.{arith}
use pytusk.Prelude.Tests.{ltb, leb, if◌then◌else◌}
use pytusk.Prelude.Lists.{length, get_or, take, drop}

module _ {A : Type 0} where
  -- Past its end a list is extended.
  unfoldable pub set_slice : List A → ℕ → List A → List A
  set_slice [] start ys = ys
  set_slice (x ∷ xs) zero [] = x ∷ xs
  set_slice (x ∷ xs) zero (y ∷ ys) = y ∷ set_slice xs zero ys
  set_slice (x ∷ xs) (suc start) ys = x ∷ set_slice xs start ys

  pub length-set_slice :
      (xs : List A) (start : ℕ) (ys : List A)
      → start + length ys ≤ length xs
      → length (set_slice xs start ys) ≡ length xs
  unfolding set_slice
  length-set_slice [] start ys h = omega arith
  length-set_slice (x ∷ xs) zero [] h = refl
  length-set_slice (x ∷ xs) zero (y ∷ ys) h = ap suc (length-set_slice xs zero ys (omega arith))
  length-set_slice (x ∷ xs) (suc start) ys h = ap suc (length-set_slice xs start ys (omega arith))

  pub get_or-set_slice :
      (xs : List A) (start : ℕ) (ys : List A) (i : ℕ) (d : A)
      → start + length ys ≤ length xs
      → get_or (set_slice xs start ys) i d ≡ (
          if leb start i && ltb i (start + length ys)
          then get_or ys (i - start) d
          else get_or xs i d)
  unfolding set_slice
  get_or-set_slice [] start [] i d h = ground arith
  get_or-set_slice [] start (y ∷ ys) i d h = absurd (omega arith)
  get_or-set_slice (x ∷ xs) zero [] i d h = ground arith
  get_or-set_slice (x ∷ xs) zero (y ∷ ys) zero d h = ground arith
  get_or-set_slice (x ∷ xs) zero (y ∷ ys) (suc i) d h =
      ground (arith, get_or-set_slice xs zero ys i d (omega arith))
  get_or-set_slice (x ∷ xs) (suc start) ys zero d h = ground arith
  get_or-set_slice (x ∷ xs) (suc start) ys (suc i) d h =
      ground (arith, get_or-set_slice xs start ys i d (omega arith))

  pub length-take : (n : ℕ) (xs : List A) → length (take n xs) ≡ min n (length xs)
  length-take zero xs = omega arith
  length-take (suc n) [] = omega arith
  length-take (suc n) (x ∷ xs) = omega (arith, length-take n xs)

  pub length-drop : (n : ℕ) (xs : List A) → length (drop n xs) ≡ length xs - n
  length-drop zero xs = omega arith
  length-drop (suc n) [] = omega arith
  length-drop (suc n) (x ∷ xs) = omega (arith, length-drop n xs)

  pub get_or-take :
      (n : ℕ) (xs : List A) (i : ℕ) (d : A) → i < n → get_or (take n xs) i d ≡ get_or xs i d
  get_or-take zero xs i d h = elim h [ ]
  get_or-take (suc n) [] i d h = refl
  get_or-take (suc n) (x ∷ xs) zero d h = refl
  get_or-take (suc n) (x ∷ xs) (suc i) d h = get_or-take n xs i d (omega arith)

  pub get_or-drop :
      (n : ℕ) (xs : List A) (i : ℕ) (d : A) → get_or (drop n xs) i d ≡ get_or xs (i + n) d
  get_or-drop zero xs i d = ap (λ j. get_or xs j d) (omega arith)
  get_or-drop (suc n) [] i d = refl
  get_or-drop (suc n) (x ∷ xs) i d =
      let e : i + suc n ≡ suc (i + n) = omega arith in rw e (get_or-drop n xs i d)

  pub get_or-append :
      (xs ys : List A) (i : ℕ) (d : A)
      → get_or (xs ++ ys) i d
        ≡ (if ltb i (length xs) then get_or xs i d else get_or ys (i - length xs) d)
  get_or-append [] ys i d = ground arith
  get_or-append (x ∷ xs) ys zero d = ground arith
  get_or-append (x ∷ xs) ys (suc i) d = ground (arith, get_or-append xs ys i d)

  pub take-append : (xs ys : List A) (n : ℕ) → n ≡ length xs → take n (xs ++ ys) ≡ xs
  take-append [] ys zero h = refl
  take-append [] ys (suc n) h = absurd (omega arith)
  take-append (x ∷ xs) ys zero h = absurd (omega arith)
  take-append (x ∷ xs) ys (suc n) h = ap (◌∷◌ x) (take-append xs ys n (omega arith))

  pub drop-append : (xs ys : List A) (n : ℕ) → n ≡ length xs → drop n (xs ++ ys) ≡ ys
  drop-append [] ys zero h = refl
  drop-append [] ys (suc n) h = absurd (omega arith)
  drop-append (x ∷ xs) ys zero h = absurd (omega arith)
  drop-append (x ∷ xs) ys (suc n) h = drop-append xs ys n (omega arith)
