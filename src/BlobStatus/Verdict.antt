-- ===== src/BlobStatus/Verdict.antt =====
-- The verdict that _resolve (pytusk/core/ops/blob_status.py) picks.
use native.Mathlib.Nat.{le_trans, le_refl}
use mathlib.Core.Option.{some-injective}
use pytusk.Prelude.{
  ℕ, suc, ◌≤◌, ◌<◌, ◌≡◌, refl, ap, none, some, List, [], ◌∷◌, get_elem?, leb, leb→le, arith,
  Bool-cases, Option-cases, ◌⊎◌, inl, inr, All,
}
use pytusk.BlobStatus.{
  BlobStatus, Resolution, quorum, validity, unresolved, unresolved_status, certainty_rank, Weights,
  with_quorum, candidates, place_by_rank, sorted_by_rank, resolve,
}

-- Every status has less weight.
abbrev pub AllBelow : ℕ → Weights → Type 0
AllBelow required weights = All (λ (e : BlobStatus × ℕ). e.1 < required) weights

-- Every status with validity weight makes no stronger claim.
abbrev pub IsStrongest : ℕ → BlobStatus → Weights → Type 0
IsStrongest required status weights =
    All (λ (e : BlobStatus × ℕ). (e.1 < required) ⊎ (certainty_rank status ≤ certainty_rank (e.0)))
      weights

pub data Verdict (weights : Weights) (required_quorum required_validity : ℕ)
    : BlobStatus × Resolution → Type 0 where
  by_quorum :
      (i : ℕ) (status : BlobStatus) (weight : ℕ)
      → get_elem? weights i ≡ some (status, weight)
      → required_quorum ≤ weight
      → Verdict weights required_quorum required_validity (status, quorum)
  by_validity :
      (i : ℕ) (status : BlobStatus) (weight : ℕ)
      → get_elem? weights i ≡ some (status, weight)
      → required_validity ≤ weight
      → AllBelow required_quorum weights
      → IsStrongest required_validity status weights
      → Verdict weights required_quorum required_validity (status, validity)
  no_verdict :
      AllBelow required_quorum weights
      → AllBelow required_validity weights
      → Verdict weights required_quorum required_validity (unresolved_status, unresolved)

-- An entry of the weights with the status and at least the weight.
abbrev Listed : ℕ → BlobStatus → Weights → Type 0
Listed required status weights =
    (i : ℕ) × (weight : ℕ) × (get_elem? weights i ≡ some (status, weight)) × (required ≤ weight)

later :
    (required : ℕ) (status : BlobStatus) (weights : Weights) (e : BlobStatus × ℕ)
    → Listed required status weights
    → Listed required status (e ∷ weights)
later required status weights e (i, weight, there, le) = (suc i, weight, there, le)

All-map :
    {A : Type 0} (P Q : A → Type 0) → ((a : A) → P a → Q a) → (xs : List A) → All P xs → All Q xs
All-map P Q h [] all = tt
All-map P Q h (x ∷ xs) all = (h x (all.0), All-map P Q h xs (all.1))

with_quorum-Listed :
    (required : ℕ) (weights : Weights) {status : BlobStatus}
    → with_quorum required weights ≡ some status
    → Listed required status weights
unfolding with_quorum
with_quorum-Listed required [] h = cc
with_quorum-Listed required ((s, w) ∷ rest) {status} h = elim (Bool-cases (leb required w)) [
  | inl y ↦
      let same : s ≡ status = some-injective _ _ (rw y at h) in
      (0, w, ap (λ t. some (t, w)) same, leb→le required w y)
  | inr n ↦ later required status rest (s, w) (with_quorum-Listed required rest (rw n at h))
]

without_quorum :
    (required : ℕ) (weights : Weights)
    → with_quorum required weights ≡ none
    → AllBelow required weights
unfolding with_quorum
without_quorum required [] h = tt
without_quorum required ((s, w) ∷ rest) h = elim (Bool-cases (leb required w)) [
  | inl y ↦ cc (rw y at h)
  | inr n ↦ (ground arith, without_quorum required rest (rw n at h))
]

candidates-Listed :
    (required : ℕ) (weights : Weights)
    → All (λ s. Listed required s weights) (candidates required weights)
unfolding candidates
candidates-Listed required [] = tt
candidates-Listed required ((s, w) ∷ rest) =
    let below =
      All-map (λ t. Listed required t rest) (λ t. Listed required t ((s, w) ∷ rest))
        (λ t. later required t rest (s, w)) (candidates required rest)
        (candidates-Listed required rest) in
    elim (Bool-cases (leb required w)) [
      | inl y ↦ rw y ((0, w, refl, leb→le required w y), below)
      | inr n ↦ rw n below
    ]

candidates-IsStrongest :
    (required : ℕ) (status : BlobStatus) (weights : Weights)
    → All (λ s. certainty_rank status ≤ certainty_rank s) (candidates required weights)
    → IsStrongest required status weights
unfolding candidates
candidates-IsStrongest required status [] all = tt
candidates-IsStrongest required status ((s, w) ∷ rest) all = elim (Bool-cases (leb required w)) [
  | inl y ↦
      let (here, below) = rw y at all in
      (inr here, candidates-IsStrongest required status rest below)
  | inr n ↦ (inl (ground arith), candidates-IsStrongest required status rest (rw n at all))
]

no_candidates :
    (required : ℕ) (weights : Weights)
    → candidates required weights ≡ []
    → AllBelow required weights
unfolding candidates
no_candidates required [] h = tt
no_candidates required ((s, w) ∷ rest) h = elim (Bool-cases (leb required w)) [
  | inl y ↦ cc (rw y at h)
  | inr n ↦ (ground arith, no_candidates required rest (rw n at h))
]

-- Sorting by rank keeps the entries and puts one of least rank first.
place-All :
    (P : BlobStatus → Type 0) (s : BlobStatus) (ts : List BlobStatus)
    → P s
    → All P ts
    → All P (place_by_rank s ts)
unfolding place_by_rank
place-All P s [] p all = (p, tt)
place-All P s (t ∷ ts) p all = elim (Bool-cases (leb (certainty_rank s) (certainty_rank t))) [
  | inl y ↦ rw y (p, all)
  | inr n ↦ rw n (all.0, place-All P s ts p (all.1))
]

sorted-All : (P : BlobStatus → Type 0) (ss : List BlobStatus) → All P ss → All P (sorted_by_rank ss)
unfolding sorted_by_rank
sorted-All P [] all = tt
sorted-All P (s ∷ ss) all = place-All P s (sorted_by_rank ss) (all.0) (sorted-All P ss (all.1))

-- No status is ranked below the head of the list.
abbrev HeadLeast : List BlobStatus → List BlobStatus → Type 0
HeadLeast [] ss = ss ≡ []
HeadLeast (h ∷ rest) ss = All (λ s. certainty_rank h ≤ certainty_rank s) ss

place-HeadLeast :
    (s : BlobStatus) (ts ss : List BlobStatus)
    → HeadLeast ts ss
    → HeadLeast (place_by_rank s ts) (s ∷ ss)
unfolding place_by_rank
place-HeadLeast s [] ss h = rw h (le_refl _, tt)
place-HeadLeast s (t ∷ ts) ss h = elim (Bool-cases (leb (certainty_rank s) (certainty_rank t))) [
  | inl y ↦
      let le = leb→le (certainty_rank s) (certainty_rank t) y in
      rw y (le_refl _, All-map _ (λ u. certainty_rank s ≤ certainty_rank u) (λ u. le_trans le) ss h)
  | inr n ↦ rw n (ground arith, h)
]

sorted-HeadLeast : (ss : List BlobStatus) → HeadLeast (sorted_by_rank ss) ss
unfolding sorted_by_rank
sorted-HeadLeast [] = refl
sorted-HeadLeast (s ∷ ss) = place-HeadLeast s (sorted_by_rank ss) ss (sorted-HeadLeast ss)

-- _resolve picks a status with quorum weight, if there is one; else, of those with validity weight,
-- one of the strongest claim; and it is unresolved when no status has either weight.
pub resolve-Verdict :
    (weights : Weights) (required_quorum required_validity : ℕ)
    → Verdict weights required_quorum required_validity
        (resolve weights required_quorum required_validity)
unfolding resolve
resolve-Verdict weights required_quorum required_validity =
    elim (Option-cases (with_quorum required_quorum weights)) [
      | inr (status, e) ↦
          let (i, weight, there, le) = with_quorum-Listed required_quorum weights e in
          rw (e, resolve) (by_quorum i status weight there le)
      | inl e ↦
          rw (e, resolve)
            (by_candidates (without_quorum required_quorum weights e)
              (sorted_by_rank (candidates required_validity weights))
              (sorted-HeadLeast (candidates required_validity weights))
              (sorted-All (λ s. Listed required_validity s weights) _
                (candidates-Listed required_validity weights)))
    ]
  where
    by_candidates :
        AllBelow required_quorum weights
        → (ss : List BlobStatus) → HeadLeast ss (candidates required_validity weights)
        → All (λ s. Listed required_validity s weights) ss
        → Verdict weights required_quorum required_validity
            (elim ss [ [] ↦ (unresolved_status, unresolved) | status ∷ rest ↦ (status, validity) ])
    by_candidates below [] none_left all =
        no_verdict below (no_candidates required_validity weights none_left)
    by_candidates below (s ∷ ss) least all =
        let (i, weight, there, le) = all.0 in
        by_validity i s weight there le below
          (candidates-IsStrongest required_validity s weights least)
