-- ===== src/NativeUpload/Slivers/Permits.antt =====
-- The write permits of upload_slivers (pytusk/core/native_upload/fanout.py).
use native.Mathlib.Nat.{div-mul-le_self, mul-le-mul}
use pytusk.Prelude.{ℕ, ◌*◌, ◌/◌, ◌≤◌, ◌≡◌, ◌⊎◌, inl, inr, min, max, ltb, arith, Bool-cases}
use pytusk.NativeUpload.Slivers.{effective_write_permits}

-- p PUTs at a time, with p at most b / d, hold at most b bytes if each has at most d.
within : (p d size bytes : ℕ) → p ≤ bytes / d → size ≤ d → p * size ≤ bytes
within p d size bytes le fits = omega (arith, mul-le-mul le fits, div-mul-le_self bytes d)

-- There is a permit at least, and no more than max_concurrent_writes (unless it is 0); and where there is
-- more than one, that many PUTs of the measured sliver size are within max_bytes_in_flight.
pub effective_write_permits_bounds :
    (max_concurrent_writes max_bytes_in_flight sliver_size : ℕ)
    → (1 ≤ effective_write_permits max_concurrent_writes max_bytes_in_flight sliver_size)
      × (effective_write_permits max_concurrent_writes max_bytes_in_flight sliver_size
          ≤ max 1 max_concurrent_writes)
      × ((effective_write_permits max_concurrent_writes max_bytes_in_flight sliver_size ≡ 1)
          ⊎ (effective_write_permits max_concurrent_writes max_bytes_in_flight sliver_size
                * sliver_size
              ≤ max_bytes_in_flight))
unfolding effective_write_permits
effective_write_permits_bounds writes bytes size =
    let q : ℕ = bytes / max size 1 in
    let p : ℕ = max 1 (min writes q) in
    (
      omega arith,
      omega arith,
      elim (Bool-cases (ltb q 1)) [
        | inl single ↦ inl (ground arith)
        | inr several ↦ inr (within p (max size 1) size bytes (ground arith) (omega arith))
      ],
    )
