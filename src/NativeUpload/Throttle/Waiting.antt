-- ===== src/NativeUpload/Throttle/Waiting.antt =====
-- PUTs that sleep on a throttle and are woken (pytusk/core/native_upload/fanout.py): every one gets its turn.
use pytusk.Prelude.{
  ℕ, suc, ◌+◌, ◌*◌, ◌≤◌, ◌<◌, ◌≡◌, ◌⊎◌, inl, inr, refl, ap, ◌∙◌, true, List, [], ◌∷◌, ◌++◌, length,
  length-append, All, arith, Bool-cases,
}
use native.Mathlib.Nat.{mul-le-mul_right}
use pytusk.NativeUpload.Throttle.{
  BytesInFlightThrottle, new_throttle, must_wait, acquire, release, Puts, look, notify_all,
  release_put,
}
use pytusk.NativeUpload.Throttle.Reservations.{total, total-middle}

-- Any PUT that is ready looks next, or any that holds a reservation releases it.
pub data Step (s : Puts) : Puts → Type 0 where
  looks :
      (before : List ℕ) (size : ℕ) (after : List ℕ)
      → s.ready ≡ before ++ size ∷ after
      → Step s (look s size (before ++ after))
  releases :
      (before : List ℕ) (size : ℕ) (after : List ℕ)
      → s.held ≡ before ++ size ∷ after
      → Step s (release_put s size (before ++ after))

-- The states after so many steps of these PUTs on a new throttle.
pub data Run (max_bytes : ℕ) (sizes : List ℕ) : ℕ → Puts → Type 0 where
  start :
      Run max_bytes sizes 0
        (record { throttle = new_throttle max_bytes; held = []; ready = sizes; waiting = [] })
  next : {n : ℕ} {s u : Puts} → Run max_bytes sizes n s → Step s u → Run max_bytes sizes (suc n) u

-- Every PUT has had its reservation and released it.
pub record AllDone (s : Puts) : Type 0 where
  pub none_held : s.held ≡ []
  pub none_ready : s.ready ≡ []
  pub none_waiting : s.waiting ≡ []

-- The throttle counts what is held, and who sleeps would have to wait if it looked.
record IsAwake (s : Puts) : Type 0 where
  counted : s.throttle.in_flight ≡ total s.held
  asleep : All (λ size. must_wait s.throttle size ≡ true) s.waiting

-- A bound on the steps that are left, for at most `n` PUTs.
abbrev unfinished : Puts → ℕ
unfinished s = 2 * (length s.ready + length s.waiting) + length s.held

abbrev left_steps : ℕ → Puts → ℕ
left_steps n s = unfinished s * (n + 1) + length s.ready

abbrev crowd : Puts → ℕ
crowd s = length s.ready + (length s.waiting + length s.held)

length-middle : (xs ys : List ℕ) (y : ℕ) → length (xs ++ y ∷ ys) ≡ suc (length (xs ++ ys))
length-middle [] ys y = refl
length-middle (x ∷ xs) ys y = ap suc (length-middle xs ys y)

still_waits :
    (t : BytesInFlightThrottle) (more : ℕ) (sizes : List ℕ)
    → All (λ size. must_wait t size ≡ true) sizes
    → All (λ size. must_wait (record t { in_flight = t.in_flight + more }) size ≡ true) sizes
still_waits t more [] all = tt
still_waits t more (size ∷ sizes) (w, all) = (ground arith, still_waits t more sizes all)

-- What a look does.
look-cases :
    (s : Puts) (size : ℕ) (others : List ℕ)
    → (look s size others ≡ record {
      throttle = record (s.throttle) { in_flight = s.throttle.in_flight + size };
      held = size ∷ s.held;
      ready = others;
      waiting = s.waiting;
    })
      ⊎ ((must_wait s.throttle size ≡ true)
          × (look s size others ≡ record {
            throttle = s.throttle;
            held = s.held;
            ready = others;
            waiting = size ∷ s.waiting;
          }))
unfolding look acquire
look-cases s size others = elim (Bool-cases (must_wait s.throttle size)) [
  | inl waits ↦ inr (waits, rw (waits, look, acquire) refl)
  | inr free ↦ inl (rw (free, look, acquire) refl)
]

fewer : (u u' r r' n : ℕ) → u' < u → r' ≤ n → u' * (n + 1) + r' < u * (n + 1) + r
fewer u u' r r' n less le =
    let more : suc u' * (n + 1) ≤ u * (n + 1) = mul-le-mul_right (n + 1) less in grind (arith, more)

still_fewer : (u u' r r' n : ℕ) → u' ≡ u → r' < r → u' * (n + 1) + r' < u * (n + 1) + r
still_fewer u u' r r' n same less =
    let kept : u' * (n + 1) ≡ u * (n + 1) = ap (λ (k : ℕ). k * (n + 1)) same in omega (arith, kept)

-- One step, for at most `n` PUTs.
record IsProgress (n : ℕ) (s u : Puts) : Type 0 where
  awake : IsAwake u
  within : crowd u ≤ n
  closer : left_steps n u < left_steps n s

look-IsProgress :
    (n : ℕ) (s : Puts) (before : List ℕ) (size : ℕ) (after : List ℕ)
    → s.ready ≡ before ++ size ∷ after
    → IsAwake s
    → crowd s ≤ n
    → IsProgress n s (look s size (before ++ after))
look-IsProgress n s before size after e is le =
    let count : length s.ready ≡ suc (length (before ++ after)) =
      ap length e ∙ length-middle before after size in
    elim (look-cases s size (before ++ after)) [
      | inl admitted ↦ rw admitted (record {
        awake = record {
          counted = omega (arith, is.counted);
          asleep = still_waits s.throttle size s.waiting is.asleep;
        };
        within = omega (arith, count, le);
        closer =
            fewer (unfinished s) _ (length s.ready) _ n (omega (arith, count))
              (omega (arith, count, le));
      })
      | inr (waits, sleeps) ↦ rw sleeps (record {
        awake = record { counted = is.counted; asleep = (waits, is.asleep) };
        within = omega (arith, count, le);
        closer =
            still_fewer (unfinished s) _ (length s.ready) _ n (omega (arith, count))
              (omega (arith, count));
      })
    ]

release-IsProgress :
    (n : ℕ) (s : Puts) (before : List ℕ) (size : ℕ) (after : List ℕ)
    → s.held ≡ before ++ size ∷ after
    → IsAwake s
    → crowd s ≤ n
    → IsProgress n s (release_put s size (before ++ after))
unfolding release_put notify_all release
release-IsProgress n s before size after e is le =
    let count : length s.held ≡ suc (length (before ++ after)) =
      ap length e ∙ length-middle before after size in
    let all : total s.held ≡ size + total (before ++ after) =
      ap total e ∙ total-middle before after size in
    let woken : length (s.waiting ++ s.ready) ≡ length s.waiting + length s.ready =
      length-append s.waiting s.ready in
    record {
      awake = record { counted = omega (arith, is.counted, all); asleep = tt };
      within = omega (arith, count, woken, le);
      closer =
          fewer (unfinished s) _ (length s.ready) _ n (omega (arith, count, woken))
            (omega (arith, count, woken, le));
    }

Step-IsProgress : (n : ℕ) {s u : Puts} → Step s u → IsAwake s → crowd s ≤ n → IsProgress n s u
Step-IsProgress n {s} (looks before size after e) = look-IsProgress n s before size after e
Step-IsProgress n {s} (releases before size after e) = release-IsProgress n s before size after e

record IsUnderway (sizes : List ℕ) (n : ℕ) (s : Puts) : Type 0 where
  awake : IsAwake s
  within : crowd s ≤ length sizes
  budget : n + left_steps (length sizes) s ≤ 2 * length sizes * (length sizes + 1) + length sizes

run-IsUnderway :
    (max_bytes : ℕ) (sizes : List ℕ) {n : ℕ} {s : Puts}
    → Run max_bytes sizes n s
    → IsUnderway sizes n s
unfolding new_throttle
run-IsUnderway max_bytes sizes start = record {
  awake = record { counted = refl; asleep = tt };
  within = omega arith;
  budget = grind arith;
}
run-IsUnderway max_bytes sizes (next {n} {s} r step) =
    let is = run-IsUnderway max_bytes sizes r in
    let p = Step-IsProgress (length sizes) step is.awake is.within in
    record { awake = p.awake; within = p.within; budget = omega (arith, is.budget, p.closer) }

-- Who sleeps on an idle throttle: nobody.
nobody :
    (t : BytesInFlightThrottle) (sizes : List ℕ)
    → t.in_flight ≡ 0
    → All (λ size. must_wait t size ≡ true) sizes
    → sizes ≡ []
nobody t [] idle all = refl
nobody t (size ∷ sizes) idle (w, all) = absurd (ground (arith, idle, w))

-- Something can be done unless all is done.
advance :
    (s : Puts) (held ready : List ℕ)
    → s.held ≡ held
    → s.ready ≡ ready
    → IsAwake s
    → AllDone s ⊎ ((u : Puts) × Step s u)
advance s (size ∷ held) ready h r is = inr (_, releases [] size held h)
advance s [] (size ∷ ready) h r is = inr (_, looks [] size ready r)
advance s [] [] h r is = inl (record {
  none_held = h;
  none_ready = r;
  none_waiting = nobody s.throttle s.waiting (is.counted ∙ ap total h) is.asleep;
})

-- In whatever order the PUTs of an upload look at the throttle and release what they hold, however large they are:
-- a PUT sleeps only while it would have to wait if it looked, so no wake-up is lost; the PUTs make a
-- bounded number of steps; and as long as some PUT has not released its reservation, there is a step to
-- make. So in the end every PUT has had its reservation, and none waits for ever.
pub puts_finish :
    (max_bytes : ℕ) (sizes : List ℕ) {n : ℕ} {s : Puts}
    → Run max_bytes sizes n s
    → All (λ size. must_wait s.throttle size ≡ true) s.waiting
      × (n ≤ 2 * length sizes * (length sizes + 1) + length sizes)
      × (AllDone s ⊎ ((u : Puts) × Step s u))
puts_finish max_bytes sizes {s = s} r =
    let is = run-IsUnderway max_bytes sizes r in
    (is.awake.asleep, omega (arith, is.budget), advance s s.held s.ready refl refl is.awake)
