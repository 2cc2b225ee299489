-- ===== src/NativeUpload/Throttle.antt =====
-- _BytesInFlightThrottle of pytusk/core/native_upload/fanout.py, and the PUTs that share one: those that hold a
-- reservation are between acquire and release. What a PUT does under the lock of the condition is one step. The
-- cancellation of a PUT that waits is left out.
pub mod Reservations
pub mod Waiting
use pytusk.Prelude.{
  ℕ, ◌+◌, ◌-◌, Bool, true, false, Option, none, some, List, [], ◌∷◌, ◌++◌, ltb, ◌&&◌, if◌then◌else◌,
}

pub record BytesInFlightThrottle : Type 0 where
  pub max_bytes : ℕ
  pub in_flight : ℕ

unfoldable pub new_throttle : ℕ → BytesInFlightThrottle
new_throttle max_bytes = record { max_bytes = max_bytes; in_flight = 0 }

-- The test of the wait loop of `acquire`.
abbrev pub must_wait : BytesInFlightThrottle → ℕ → Bool
must_wait t size = ltb 0 t.in_flight && ltb t.max_bytes (t.in_flight + size)

-- One look of `acquire`: the reservation, or `none` while it has to wait.
unfoldable pub acquire : BytesInFlightThrottle → ℕ → Option BytesInFlightThrottle
acquire t size =
    if must_wait t size then none else some (record t { in_flight = t.in_flight + size })

unfoldable pub release : BytesInFlightThrottle → ℕ → BytesInFlightThrottle
release t size = record t { in_flight = t.in_flight - size }

-- The sizes of the PUTs on a throttle: of those that hold a reservation, of those that go on to the test of
-- `acquire`, and of those that sleep in `self._condition.wait()`.
pub record Puts : Type 0 where
  pub throttle : BytesInFlightThrottle
  pub held : List ℕ
  pub ready : List ℕ
  pub waiting : List ℕ

-- The test of `acquire`, by a PUT of this size: it gets its reservation, or sleeps.
unfoldable pub look : Puts → ℕ → List ℕ → Puts
unfolding acquire
look s size others = elim (acquire s.throttle size) [
  | some t ↦ record { throttle = t; held = size ∷ s.held; ready = others; waiting = s.waiting }
  | none ↦ record {
    throttle = s.throttle;
    held = s.held;
    ready = others;
    waiting = size ∷ s.waiting;
  }
]

-- self._condition.notify_all()
unfoldable pub notify_all : Puts → Puts
notify_all s = record {
  throttle = s.throttle;
  held = s.held;
  ready = s.waiting ++ s.ready;
  waiting = [];
}

-- `release`, by a PUT that holds a reservation of this size.
unfoldable pub release_put : Puts → ℕ → List ℕ → Puts
unfolding release notify_all
release_put s size others = notify_all (record {
  throttle = release s.throttle size;
  held = others;
  ready = s.ready;
  waiting = s.waiting;
})
