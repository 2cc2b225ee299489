-- ===== src/Quilt/Patches/Order.antt =====
-- The order of the keys that pytusk/core/encoding/quilt.py sorts by, and what follows for a sorted list.
use mathlib.Core.List.{Perm, Permᴰ}
use mathlib.Core.Logic.{∥∥₁_elim}
use pytusk.Prelude.{
  ℕ, ◌≡◌, refl, ap, ◌∙◌, arith, Bool, true, false, List, [], ◌∷◌, map, Bool-cases, inl, inr,
}
use pytusk.Quilt.Patches.Sorting.{code_points_le, insert_by, sorted_by}

le_total : (xs ys : List ℕ) → code_points_le xs ys ≡ false → code_points_le ys xs ≡ true
unfolding code_points_le
le_total [] ys h = cc
le_total (x ∷ xs) [] h = refl
le_total (x ∷ xs) (y ∷ ys) h = ground (arith, le_total xs ys)

le_antisym : (xs ys : List ℕ) → code_points_le xs ys ≡ true → code_points_le ys xs ≡ true → xs ≡ ys
unfolding code_points_le
le_antisym [] [] h k = refl
le_antisym [] (y ∷ ys) h k = cc
le_antisym (x ∷ xs) [] h k = cc
le_antisym (x ∷ xs) (y ∷ ys) h k = ground (arith, le_antisym xs ys)

le_trans :
    (xs ys zs : List ℕ)
    → code_points_le xs ys ≡ true
    → code_points_le ys zs ≡ true
    → code_points_le xs zs ≡ true
unfolding code_points_le
le_trans [] ys zs h k = refl
le_trans (x ∷ xs) [] zs h k = cc
le_trans (x ∷ xs) (y ∷ ys) [] h k = cc
le_trans (x ∷ xs) (y ∷ ys) (z ∷ zs) h k = ground (arith, le_trans xs ys zs)

-- Two texts are inserted in either order.
insert_comm :
    (x y : List ℕ) (zs : List (List ℕ))
    → insert_by code_points_le x (insert_by code_points_le y zs)
      ≡ insert_by code_points_le y (insert_by code_points_le x zs)
unfolding insert_by
insert_comm x y [] = ground (arith, le_total x y, le_antisym x y)
insert_comm x y (z ∷ zs) =
    ground (arith, insert_comm x y zs, le_total x y, le_antisym x y, le_trans x y z, le_trans y x z)

sorted-Permᴰ :
    {xs ys : List (List ℕ)}
    → Permᴰ xs ys
    → sorted_by code_points_le xs ≡ sorted_by code_points_le ys
unfolding sorted_by
sorted-Permᴰ Permᴰ.nil = refl
sorted-Permᴰ (Permᴰ.cons e p) = rw e (ap (insert_by code_points_le _) (sorted-Permᴰ p))
sorted-Permᴰ (Permᴰ.swap e d) = rw (e, d) (insert_comm _ _ _)
sorted-Permᴰ (Permᴰ.trans p q) = sorted-Permᴰ p ∙ sorted-Permᴰ q

-- Sorting forgets the order.
pub sorted-Perm :
    (xs ys : List (List ℕ)) → Perm xs ys → sorted_by code_points_le xs ≡ sorted_by code_points_le ys
sorted-Perm xs ys p = ∥∥₁_elim p (hlevel) sorted-Permᴰ

module _ {A : Type 0} (key : A → List ℕ) where
  abbrev by_key : A → A → Bool
  by_key x y = code_points_le (key x) (key y)

  map-insert_by :
      (x : A) (xs : List A)
      → map key (insert_by by_key x xs) ≡ insert_by code_points_le (key x) (map key xs)
  unfolding insert_by
  map-insert_by x [] = refl
  map-insert_by x (y ∷ ys) = elim (Bool-cases (code_points_le (key x) (key y))) [
    | inl e ↦ rw e refl
    | inr n ↦ rw n (ap (◌∷◌ (key y)) (map-insert_by x ys))
  ]

  pub map-sorted_by :
      (xs : List A) → map key (sorted_by by_key xs) ≡ sorted_by code_points_le (map key xs)
  unfolding sorted_by
  map-sorted_by [] = refl
  map-sorted_by (x ∷ xs) =
      map-insert_by x (sorted_by by_key xs)
      ∙ ap (insert_by code_points_le (key x)) (map-sorted_by xs)
