-- ===== src/Prelude/Orders.antt =====
-- Tests and sums over a list that its order leaves as they are.
use mathlib.Core.List.{Perm, Permᴰ}
use mathlib.Core.Logic.{∥∥₁_elim}
use mathlib.Core.Bool.{Bool-set}
use native.Mathlib.Nat.{ℕ_set}
use Prim.Native.Nat.{ℕ, ◌+◌}
use mathlib.Core.Path.{◌≡◌, refl, ap, ◌∙◌}
use mathlib.Core.Bool.{Bool, false, ◌||◌}
use mathlib.Core.List.{List, [], ◌∷◌, ◌++◌}
use native.Mathlib.Omega.{arith}
use pytusk.Prelude.Lists.{All}

abbrev pub any : {A : Type 0} → (A → Bool) → List A → Bool
any f [] = false
any f (m ∷ ms) = f m || any f ms

or_swap : (a b c : Bool) → (a || (b || c)) ≡ (b || (a || c))
or_swap a b c = ground arith

any-Permᴰ : {A : Type 0} (f : A → Bool) {ms ns : List A} → Permᴰ ms ns → any f ms ≡ any f ns
any-Permᴰ f Permᴰ.nil = refl
any-Permᴰ f (Permᴰ.cons e p) = rw e (ap (◌||◌ (f _)) (any-Permᴰ f p))
any-Permᴰ f (Permᴰ.swap e d) = rw (e, d) (or_swap (f _) (f _) _)
any-Permᴰ f (Permᴰ.trans p q) = any-Permᴰ f p ∙ any-Permᴰ f q

pub any-Perm : {A : Type 0} (f : A → Bool) (ms ns : List A) → Perm ms ns → any f ms ≡ any f ns
any-Perm f ms ns p = ∥∥₁_elim p (Bool-set (any f ms) (any f ns)) (any-Permᴰ f)

pub any-append :
    {A : Type 0} (f : A → Bool) (ms ns : List A) → any f (ms ++ ns) ≡ (any f ms || any f ns)
any-append f [] ns = refl
any-append f (m ∷ ms) ns = ground (arith, any-append f ms ns)

pub All-map :
    {A : Type 0} (P Q : A → Type 0) → ((a : A) → P a → Q a) → (xs : List A) → All P xs → All Q xs
All-map P Q h [] all = tt
All-map P Q h (x ∷ xs) all = (h x (all.0), All-map P Q h xs (all.1))

pub any-All :
    {A : Type 0} (f : A → Bool) (xs : List A) → any f xs ≡ false → All (λ x. f x ≡ false) xs
any-All f [] e = tt
any-All f (x ∷ xs) e = (ground arith, any-All f xs (ground arith))

abbrev pub sum_by : {A : Type 0} → (A → ℕ) → List A → ℕ
sum_by f [] = 0
sum_by f (x ∷ xs) = f x + sum_by f xs

sum_by-Permᴰ : {A : Type 0} (f : A → ℕ) {xs ys : List A} → Permᴰ xs ys → sum_by f xs ≡ sum_by f ys
sum_by-Permᴰ f Permᴰ.nil = refl
sum_by-Permᴰ f (Permᴰ.cons e p) = rw e (ap (◌+◌ (f _)) (sum_by-Permᴰ f p))
sum_by-Permᴰ f (Permᴰ.swap e d) = rw (e, d) (omega arith)
sum_by-Permᴰ f (Permᴰ.trans p q) = sum_by-Permᴰ f p ∙ sum_by-Permᴰ f q

pub sum_by-Perm : {A : Type 0} (f : A → ℕ) (xs ys : List A) → Perm xs ys → sum_by f xs ≡ sum_by f ys
sum_by-Perm f xs ys p = ∥∥₁_elim p (ℕ_set (sum_by f xs) (sum_by f ys)) (sum_by-Permᴰ f)

pub sum_by-append :
    {A : Type 0} (f : A → ℕ) (xs ys : List A) → sum_by f (xs ++ ys) ≡ sum_by f xs + sum_by f ys
sum_by-append f [] ys = omega arith
sum_by-append f (x ∷ xs) ys = omega (arith, sum_by-append f xs ys)
