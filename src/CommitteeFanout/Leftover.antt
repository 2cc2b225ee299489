-- ===== src/CommitteeFanout/Leftover.antt =====
-- What the comprehension of the `finally` block keeps (pytusk/core/committee_fanout.py).
use mathlib.Core.List.{Perm, Permᴰ, Perm-prop, perm_middle}
use mathlib.Core.List.Perm
use mathlib.Core.Logic.{∥∥₁_elim}
use pytusk.Prelude.{◌≡◌, refl, Bool, true, false, List, [], ◌∷◌, ◌++◌, All, Bool-cases, inl, inr}
use pytusk.CommitteeFanout.{EventLoop, leftover}

-- All of a list, and of its extension.
pub All-append :
    {Task : Type 0} (P : Task → Type 0) (xs ys : List Task) → All P xs → All P ys → All P (xs ++ ys)
All-append P [] ys h k = k
All-append P (x ∷ xs) ys (p, h) k = (p, All-append P xs ys h k)

module _ {Task A : Type 0} (loop : EventLoop Task) (on_completed on_cancelled : A → Task → A)
    (should_stop : A → Bool) where
  abbrev left : List Task → List Task
  left = leftover loop on_completed on_cancelled should_stop

  leftover-cons :
      (t : Task) (xs ys : List Task)
      → Perm (left xs) (left ys)
      → Perm (left (t ∷ xs)) (left (t ∷ ys))
  unfolding leftover
  leftover-cons t xs ys p = elim (Bool-cases (loop.done t)) [
    | inl y ↦ rw y p
    | inr n ↦ rw n (Perm.cons t p)
  ]

  leftover-swap : (s t : Task) (xs : List Task) → Perm (left (s ∷ t ∷ xs)) (left (t ∷ s ∷ xs))
  unfolding leftover
  leftover-swap s t xs = elim (Bool-cases (loop.done s)) [
    | inl y ↦ rw y (Perm.refl _)
    | inr n ↦ elim (Bool-cases (loop.done t)) [
      | inl y ↦ rw (n, y) (Perm.refl _)
      | inr m ↦ rw (n, m) (Perm.swap t s (left xs))
    ]
  ]

  leftover-Permᴰ : {xs ys : List Task} → Permᴰ xs ys → Perm (left xs) (left ys)
  leftover-Permᴰ Permᴰ.nil = Perm.refl _
  leftover-Permᴰ (Permᴰ.cons {l₁ = l} {l₂ = m} e p) = rw e (leftover-cons _ l m (leftover-Permᴰ p))
  leftover-Permᴰ (Permᴰ.swap {l = l} e d) = rw (e, d) (leftover-swap _ _ l)
  leftover-Permᴰ (Permᴰ.trans p q) = Perm.trans (leftover-Permᴰ p) (leftover-Permᴰ q)

  pub leftover-Perm : (xs ys : List Task) → Perm xs ys → Perm (left xs) (left ys)
  leftover-Perm xs ys p = ∥∥₁_elim p Perm-prop leftover-Permᴰ

  pub leftover-done :
      (xs ys : List Task) → All (λ t. loop.done t ≡ true) xs → left (xs ++ ys) ≡ left ys
  unfolding leftover
  leftover-done [] ys all = refl
  leftover-done (x ∷ xs) ys (d, all) = rw d (leftover-done xs ys all)

  pub leftover-none : (xs : List Task) → All (λ t. loop.done t ≡ true) xs → left xs ≡ []
  unfolding leftover
  leftover-none [] all = refl
  leftover-none (x ∷ xs) (d, all) = rw d (leftover-none xs all)

  pub leftover-running : (xs : List Task) → All (λ t. loop.done t ≡ false) (left xs)
  unfolding leftover
  leftover-running [] = tt
  leftover-running (x ∷ xs) = elim (Bool-cases (loop.done x)) [
    | inl y ↦ rw y (leftover-running xs)
    | inr n ↦ rw n (n, leftover-running xs)
  ]

  -- The tasks that the comprehension drops.
  pub dropped :
      (xs : List Task)
      → (finished : List Task) × All (λ t. loop.done t ≡ true) finished
        × Perm (finished ++ left xs) xs
  unfolding leftover
  dropped [] = ([], tt, Perm.refl [])
  dropped (x ∷ xs) =
      let (finished, all, p) = dropped xs in
      elim (Bool-cases (loop.done x)) [
        | inl y ↦ (x ∷ finished, (y, all), rw y (Perm.cons x p))
        | inr n ↦
            (finished, all, rw n (Perm.trans (perm_middle finished (left xs)) (Perm.cons x p)))
      ]
