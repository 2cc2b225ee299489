-- ===== src/Prelude/Lists.antt =====
-- Lists measured and indexed by native numbers, under the library's names.
use Prim.Native.Nat.{ℕ, zero, suc, ◌+◌, ◌<◌, ◌≤◌}
use mathlib.Core.Path.{◌≡◌, refl, ap, ◌∙◌}
use mathlib.Core.Logic.{◌≢◌}
use mathlib.Core.List.{List, [], ◌∷◌, ◌++◌, map}
use mathlib.Core.Option.{Option, none, some}
use native.Mathlib.Omega.{arith}
use mathlib.Core.Bool.{Bool, false, ◌||◌}
use pytusk.Prelude.Tests.{◌==◌, leb, if◌then◌else◌}

module _ {ℓ} {A : Type ℓ} where
  abbrev pub length : List A → ℕ
  length [] = 0
  length (x ∷ xs) = suc (length xs)

  abbrev pub get_elem? : List A → ℕ → Option A
  get_elem? [] i = none
  get_elem? (x ∷ xs) zero = some x
  get_elem? (x ∷ xs) (suc i) = get_elem? xs i

  abbrev pub get_or : List A → ℕ → A → A
  get_or [] i d = d
  get_or (x ∷ xs) zero d = x
  get_or (x ∷ xs) (suc i) d = get_or xs i d

  -- A write out of bounds changes nothing.
  abbrev pub set : List A → ℕ → A → List A
  set [] i v = []
  set (x ∷ xs) zero v = v ∷ xs
  set (x ∷ xs) (suc i) v = x ∷ set xs i v

  abbrev pub take : ℕ → List A → List A
  take zero xs = []
  take (suc n) [] = []
  take (suc n) (x ∷ xs) = x ∷ take n xs

  abbrev pub drop : ℕ → List A → List A
  drop zero xs = xs
  drop (suc n) [] = []
  drop (suc n) (x ∷ xs) = drop n xs

  abbrev pub replicate : ℕ → A → List A
  replicate zero a = []
  replicate (suc n) a = a ∷ replicate n a

module _ {ℓ} {A : Type ℓ} where
  pub length-append : (xs ys : List A) → length (xs ++ ys) ≡ length xs + length ys
  length-append [] ys = omega arith
  length-append (x ∷ xs) ys = omega (arith, length-append xs ys)

  pub length-set : (xs : List A) (i : ℕ) (v : A) → length (set xs i v) ≡ length xs
  length-set [] i v = refl
  length-set (x ∷ xs) zero v = refl
  length-set (x ∷ xs) (suc i) v = ap suc (length-set xs i v)

  pub get_or-set_self :
      (xs : List A) (i : ℕ) (v d : A) → i < length xs → get_or (set xs i v) i d ≡ v
  get_or-set_self [] i v d h = elim h [ ]
  get_or-set_self (x ∷ xs) zero v d h = refl
  get_or-set_self (x ∷ xs) (suc i) v d h = get_or-set_self xs i v d (omega arith)

  pub get_or-set_ne :
      (xs : List A) (i j : ℕ) (v d : A) → i ≢ j → get_or (set xs i v) j d ≡ get_or xs j d
  get_or-set_ne [] i j v d h = refl
  get_or-set_ne (x ∷ xs) zero zero v d h = absurd (h refl)
  get_or-set_ne (x ∷ xs) zero (suc j) v d h = refl
  get_or-set_ne (x ∷ xs) (suc i) zero v d h = refl
  get_or-set_ne (x ∷ xs) (suc i) (suc j) v d h = get_or-set_ne xs i j v d (λ e. h (ap suc e))

  pub length-replicate : (n : ℕ) (a : A) → length (replicate n a) ≡ n
  length-replicate zero a = refl
  length-replicate (suc n) a = ap suc (length-replicate n a)

  pub get_or-replicate : (n i : ℕ) (a : A) → get_or (replicate n a) i a ≡ a
  get_or-replicate zero i a = refl
  get_or-replicate (suc n) zero a = refl
  get_or-replicate (suc n) (suc i) a = get_or-replicate n i a

  pub length-map {κ} : {B : Type κ} (f : A → B) (xs : List A) → length (map f xs) ≡ length xs
  length-map f [] = refl
  length-map f (x ∷ xs) = ap suc (length-map f xs)

  -- A predicate on every element.
  abbrev pub All {κ} : (A → Type κ) → List A → Type κ
  All P [] = Unit {κ}
  All P (x ∷ xs) = P x × All P xs

-- p in ps
abbrev pub contains : ℕ → List ℕ → Bool
contains p [] = false
contains p (q ∷ qs) = q == p || contains p qs

-- Ascending without repetition, from `low` on.
abbrev pub IsAscending : ℕ → List ℕ → Type 0
IsAscending low [] = Unit
IsAscending low (p ∷ ps) = (low ≤ p) × IsAscending (p + 1) ps

-- Without repetition.
abbrev pub IsDistinct : List ℕ → Type 0
IsDistinct [] = Unit
IsDistinct (p ∷ ps) = (contains p ps ≡ false) × IsDistinct ps

-- Python's sorted, by insertion.
pub sorted_insert : ℕ → List ℕ → List ℕ
sorted_insert p [] = p ∷ []
sorted_insert p (q ∷ qs) = let rest = sorted_insert p qs in if leb p q then p ∷ q ∷ qs else q ∷ rest

unfoldable pub sorted : List ℕ → List ℕ
unfolding sorted_insert
sorted [] = []
sorted (p ∷ ps) = sorted_insert p (sorted ps)

contains-sorted_insert :
    (q p : ℕ) (ps : List ℕ) → contains q (sorted_insert p ps) ≡ (p == q || contains q ps)
unfolding sorted_insert
contains-sorted_insert q p [] = refl
contains-sorted_insert q p (r ∷ ps) = ground (arith, contains-sorted_insert q p ps)

pub contains-sorted : (q : ℕ) (ps : List ℕ) → contains q (sorted ps) ≡ contains q ps
unfolding sorted
contains-sorted q [] = refl
contains-sorted q (p ∷ ps) =
    ground (arith, contains-sorted_insert q p (sorted ps), contains-sorted q ps)

sorted_insert-IsAscending :
    (low p : ℕ) (ps : List ℕ)
    → low ≤ p
    → contains p ps ≡ false
    → IsAscending low ps
    → IsAscending low (sorted_insert p ps)
unfolding sorted_insert
sorted_insert-IsAscending low p [] le c a = ground arith
sorted_insert-IsAscending low p (q ∷ qs) le c (lq, a) =
    ground (arith, sorted_insert-IsAscending (q + 1) p qs)

pub sorted-IsAscending : (ps : List ℕ) → IsDistinct ps → IsAscending 0 (sorted ps)
unfolding sorted
sorted-IsAscending [] d = tt
sorted-IsAscending (p ∷ ps) (c, d) =
    sorted_insert-IsAscending 0 p (sorted ps) (omega arith) (contains-sorted p ps ∙ c)
      (sorted-IsAscending ps d)
