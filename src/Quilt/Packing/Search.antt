-- ===== src/Quilt/Packing/Search.antt =====
-- The binary search of compute_symbol_size (pytusk/core/encoding/quilt.py) on any monotone test.
use pytusk.Prelude.{
  ℕ, zero, suc, ◌+◌, ◌/◌, ◌≤◌, ◌<◌, ◌≡◌, Bool, true, false, ltb, ltb→lt, max, arith, Bool-cases,
  ◌⊎◌, inl, inr,
}
use pytusk.Quilt.Packing.{narrow}

-- The search ends at the least number from `lo` on that passes, if it lies below `hi`, else at `hi`
-- or, if that is greater, at `lo`.
pub record IsFound (fits : ℕ → Bool) (lo hi r : ℕ) : Type 0 where
  pub above : lo ≤ r
  pub below : r ≤ max lo hi
  pub least : (j : ℕ) → lo ≤ j → j < r → fits j ≡ false
  pub passes : (fits r ≡ true) ⊎ (max lo hi ≤ r)

module _ (fits : ℕ → Bool) (mono : (i j : ℕ) → i ≤ j → fits i ≡ true → fits j ≡ true) where
  fails_below : (i j : ℕ) → i ≤ j → fits j ≡ false → fits i ≡ false
  fails_below i j le fails = elim (Bool-cases (fits i)) [
    | inl y ↦ cc (mono i j le y, fails)
    | inr n ↦ n
  ]

  lower-IsFound :
      (lo hi mid r : ℕ)
      → lo ≤ mid
      → mid < hi
      → fits mid ≡ true
      → IsFound fits lo mid r
      → IsFound fits lo hi r
  lower-IsFound lo hi mid r le lt y f = record {
    above = f.above;
    below = omega (arith, f.below);
    least = f.least;
    passes = inl (elim f.passes [ inl p ↦ p | inr top ↦ mono mid r (omega arith) y ]);
  }

  upper-IsFound :
      (lo hi mid r : ℕ)
      → lo ≤ mid
      → mid < hi
      → fits mid ≡ false
      → IsFound fits (mid + 1) hi r
      → IsFound fits lo hi r
  upper-IsFound lo hi mid r le lt n f = record {
    above = omega (arith, f.above);
    below = omega (arith, f.below);
    least = λ j low high. elim (Bool-cases (ltb mid j)) [
      | inl y ↦ f.least j (ground arith) high
      | inr m ↦ fails_below j mid (ground arith) n
    ];
    passes = elim f.passes [ inl p ↦ inl p | inr top ↦ inr (omega arith) ];
  }

  pub narrow-IsFound :
      (fuel lo hi : ℕ) → hi ≤ lo + fuel → IsFound fits lo hi (narrow fits fuel lo hi)
  unfolding narrow
  narrow-IsFound zero lo hi le = record {
    above = omega arith;
    below = omega arith;
    least = λ j low high. absurd (omega arith);
    passes = inr (omega arith);
  }
  narrow-IsFound (suc fuel) lo hi le = elim (Bool-cases (ltb lo hi)) [
    | inl y ↦
        let lt : lo < hi = ltb→lt lo hi y in
        rw y (elim (Bool-cases (fits ((lo + hi) / 2))) [
          | inl fit ↦ rw fit (
              lower-IsFound lo hi ((lo + hi) / 2) _ (omega arith) (omega arith) fit
                (narrow-IsFound fuel lo ((lo + hi) / 2) (omega arith)))
          | inr no_fit ↦ rw no_fit (
              upper-IsFound lo hi ((lo + hi) / 2) _ (omega arith) (omega arith) no_fit
                (narrow-IsFound fuel ((lo + hi) / 2 + 1) hi (omega arith)))
        ])
    | inr n ↦ rw n (record {
      above = omega arith;
      below = omega arith;
      least = λ j low high. absurd (omega arith);
      passes = inr (ground arith);
    })
  ]
