-- ===== src/NativeUpload/Throttle/Reservations.antt =====
-- Interleavings of PUTs that share a throttle (pytusk/core/native_upload/fanout.py).
use pytusk.Prelude.{
  ℕ, ◌+◌, ◌≤◌, ◌≡◌, ◌⊎◌, inl, inr, refl, ap, ◌∙◌, some, List, [], ◌∷◌, ◌++◌, max, ltb, arith,
  Bool-cases,
}
use mathlib.Core.Option.{some-injective}
use pytusk.NativeUpload.Throttle.{BytesInFlightThrottle, new_throttle, must_wait, acquire, release}

abbrev pub total : List ℕ → ℕ
total [] = 0
total (size ∷ sizes) = size + total sizes

-- The throttle, and the sizes that PUTs have reserved and not released.
pub record Shared : Type 0 where
  pub throttle : BytesInFlightThrottle
  pub held : List ℕ

-- A PUT passes acquire, or one that holds a reservation releases it.
pub data Step (s : Shared) : Shared → Type 0 where
  enter :
      (size : ℕ) (t : BytesInFlightThrottle)
      → acquire s.throttle size ≡ some t
      → Step s (record { throttle = t; held = size ∷ s.held })
  leave :
      (before : List ℕ) (size : ℕ) (after : List ℕ)
      → s.held ≡ before ++ size ∷ after
      → Step s (record { throttle = release s.throttle size; held = before ++ after })

pub data Reach (max_bytes : ℕ) : Shared → Type 0 where
  start : Reach max_bytes (record { throttle = new_throttle max_bytes; held = [] })
  next : {s u : Shared} → Reach max_bytes s → Step s u → Reach max_bytes u

abbrev pub largest : List ℕ → ℕ
largest [] = 0
largest (size ∷ sizes) = max size (largest sizes)

-- The throttle counts the bytes that are held, within its capacity unless one PUT holds them all.
pub record IsBounded (max_bytes : ℕ) (s : Shared) : Type 0 where
  pub capacity : s.throttle.max_bytes ≡ max_bytes
  pub counted : s.throttle.in_flight ≡ total s.held
  pub bounded : (total s.held ≤ max_bytes) ⊎ (total s.held ≡ largest s.held)

-- What a list has with one element more.
pub total-middle : (xs ys : List ℕ) (y : ℕ) → total (xs ++ y ∷ ys) ≡ y + total (xs ++ ys)
total-middle [] ys y = refl
total-middle (x ∷ xs) ys y = omega (arith, total-middle xs ys y)

largest-middle : (xs ys : List ℕ) (y : ℕ) → largest (xs ++ y ∷ ys) ≡ max y (largest (xs ++ ys))
largest-middle [] ys y = refl
largest-middle (x ∷ xs) ys y = omega (arith, largest-middle xs ys y)

largest-le-total : (xs : List ℕ) → largest xs ≤ total xs
largest-le-total [] = omega arith
largest-le-total (x ∷ xs) = omega (arith, largest-le-total xs)

enter-IsBounded :
    (max_bytes : ℕ) (s : Shared) (size : ℕ) (t : BytesInFlightThrottle)
    → acquire s.throttle size ≡ some t
    → IsBounded max_bytes s
    → IsBounded max_bytes (record { throttle = t; held = size ∷ s.held })
unfolding acquire
enter-IsBounded max_bytes s size t e is = elim (Bool-cases (must_wait s.throttle size)) [
  | inl waits ↦ cc (rw waits at e)
  | inr free ↦
      let same : record (s.throttle) { in_flight = s.throttle.in_flight + size } ≡ t =
        some-injective _ _ (rw free at e) in
      rw (← same) (record {
        capacity = is.capacity;
        counted = omega (arith, is.counted);
        bounded = elim (Bool-cases (ltb 0 s.throttle.in_flight)) [
          | inl busy ↦ inl (ground (arith, is.counted, is.capacity))
          | inr idle ↦ inr (ground (arith, is.counted, largest-le-total s.held))
        ];
      })
]

leave-IsBounded :
    (max_bytes : ℕ) (s : Shared) (before : List ℕ) (size : ℕ) (after : List ℕ)
    → s.held ≡ before ++ size ∷ after
    → IsBounded max_bytes s
    → IsBounded max_bytes (record { throttle = release s.throttle size; held = before ++ after })
unfolding release
leave-IsBounded max_bytes s before size after e is =
    let all : total s.held ≡ size + total (before ++ after) =
      ap total e ∙ total-middle before after size in
    let most : largest s.held ≡ max size (largest (before ++ after)) =
      ap largest e ∙ largest-middle before after size in
    record {
      capacity = is.capacity;
      counted = omega (arith, is.counted);
      bounded = elim is.bounded [
        | inl le ↦ inl (omega arith)
        | inr whole ↦ elim (Bool-cases (ltb size (largest (before ++ after)))) [
          | inl less ↦ inr (ground (arith, largest-le-total (before ++ after)))
          | inr more ↦ inl (ground (arith, largest-le-total (before ++ after)))
        ]
      ];
    }

-- In whatever order PUTs pass acquire and release what they hold, from a new throttle on: the throttle
-- counts the bytes that are held, and they are within its capacity unless a single PUT holds them all.
pub Reach-IsBounded : (max_bytes : ℕ) {s : Shared} → Reach max_bytes s → IsBounded max_bytes s
unfolding new_throttle
Reach-IsBounded max_bytes start = record {
  capacity = refl;
  counted = omega arith;
  bounded = inl (omega arith);
}
Reach-IsBounded max_bytes (next {s} r (enter size t e)) =
    enter-IsBounded max_bytes s size t e (Reach-IsBounded max_bytes r)
Reach-IsBounded max_bytes (next {s} r (leave before size after e)) =
    leave-IsBounded max_bytes s before size after e (Reach-IsBounded max_bytes r)
