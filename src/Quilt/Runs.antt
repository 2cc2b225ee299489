-- ===== src/Quilt/Runs.antt =====
-- Blobs that are packed into a quilt, and the theorems of pytusk/core/encoding/quilt.py there.
use pytusk.Prelude.{◌%◌, ℕ, ◌≡◌, ◌≤◌, refl, List, [], ◌∷◌, arith}
use pytusk.Errors.{ok}
use pytusk.Quilt.Packing.{compute_symbol_size, can_blobs_fit}
use pytusk.Redstuff.Sizes.{rs2_max_symbol_size}
use pytusk.Quilt.Packing.Least.{IsServing, compute_symbol_size_least}

abbrev sizes : List ℕ
sizes = 30 ∷ 100 ∷ 7 ∷ 250 ∷ []

computed : compute_symbol_size sizes 7 4 10 ≡ ok 22
unfolding compute_symbol_size
computed = refl

generous : IsServing sizes 7 4 10 100
unfolding can_blobs_fit
generous = record { fits = refl; index = omega arith; prefix = omega arith }

compute_symbol_size_least_example :
    (size : ℕ) × (compute_symbol_size sizes 7 4 10 ≡ ok size)
    × (size % 2 ≡ 0)
    × (size ≤ rs2_max_symbol_size)
    × IsServing sizes 7 4 10 size
    × (size ≤ 100)
compute_symbol_size_least_example =
    compute_symbol_size_least sizes 7 4 10 100 (omega arith) (omega arith) (omega arith)
      (omega arith) refl (omega arith) generous
