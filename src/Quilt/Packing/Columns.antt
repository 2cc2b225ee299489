-- ===== src/Quilt/Packing/Columns.antt =====
-- Whole columns for each blob (pytusk/core/encoding/quilt.py): how many the blobs take.
use native.Mathlib.Nat.{mul-le-mul_left, mul-le-mul_right, le_trans}
use pytusk.Prelude.{ℕ, ◌*◌, ◌/◌, ◌≤◌, ◌<◌, ◌≡◌, true, arith, List, [], ◌∷◌, length}
use pytusk.Prelude.Arith.{div_ceil, le-div_ceil, div_ceil-le}
use pytusk.Quilt.Packing.{columns, can_blobs_fit, sum, maximum, max_symbol, fits_at}

columns_antitone : (sizes : List ℕ) (c d : ℕ) → 0 < c → c ≤ d → columns sizes d ≤ columns sizes c
unfolding columns
columns_antitone [] c d h le = omega arith
columns_antitone (x ∷ xs) c d h le =
    let wide : div_ceil x c * c ≤ div_ceil x c * d = mul-le-mul_left (div_ceil x c) le in
    let less : div_ceil x d ≤ div_ceil x c =
      div_ceil-le x d (div_ceil x c) (omega arith) (le_trans (le-div_ceil x c h) wide) in
    omega (arith, columns_antitone xs c d h le)

columns_bound :
    (sizes : List ℕ) (c q : ℕ) → 0 < c → maximum sizes ≤ q * c → columns sizes c ≤ length sizes * q
unfolding columns
columns_bound [] c q h le = omega arith
columns_bound (x ∷ xs) c q h le =
    let one : div_ceil x c ≤ q = div_ceil-le x c q h (omega arith) in
    let rest = columns_bound xs c q h (omega arith) in grind arith

columns_cover : (sizes : List ℕ) (c : ℕ) → 0 < c → sum sizes ≤ columns sizes c * c
unfolding columns
columns_cover [] c h = omega arith
columns_cover (x ∷ xs) c h =
    let one : x ≤ div_ceil x c * c = le-div_ceil x c h in omega (arith, columns_cover xs c h)

module _ (sizes : List ℕ) (n_columns n_rows : ℕ) where
  pub fits_at-columns :
      (k : ℕ)
      → fits_at sizes n_columns n_rows k ≡ true
      → (0 < k * n_rows) × (columns sizes (k * n_rows) ≤ n_columns)
  unfolding fits_at can_blobs_fit
  fits_at-columns k h = ground arith

  columns-fits_at :
      (k : ℕ)
      → 0 < k * n_rows
      → columns sizes (k * n_rows) ≤ n_columns
      → fits_at sizes n_columns n_rows k ≡ true
  unfolding fits_at can_blobs_fit
  columns-fits_at k h le = ground arith

  pub fits_at_mono :
      (i j : ℕ)
      → i ≤ j
      → fits_at sizes n_columns n_rows i ≡ true
      → fits_at sizes n_columns n_rows j ≡ true
  fits_at_mono i j le h =
      let (pos, few) = fits_at-columns i h in
      let wide : i * n_rows ≤ j * n_rows = mul-le-mul_right n_rows le in
      columns-fits_at j (omega arith)
        (le_trans (columns_antitone sizes (i * n_rows) (j * n_rows) pos wide) few)

  -- Blobs that fit have no more bytes than the matrix.
  pub fits_at-sum :
      (k : ℕ) → fits_at sizes n_columns n_rows k ≡ true → sum sizes ≤ k * (n_columns * n_rows)
  fits_at-sum k h =
      let (pos, few) = fits_at-columns k h in
      let wide : columns sizes (k * n_rows) * (k * n_rows) ≤ n_columns * (k * n_rows) =
        mul-le-mul_right (k * n_rows) few in
      omega (arith, columns_cover sizes (k * n_rows) pos)

  -- From the upper end of the search on, every size but zero fits.
  pub max_symbol-fits_at :
      (k : ℕ)
      → 0 < n_rows
      → 0 < length sizes
      → length sizes ≤ n_columns
      → 0 < k
      → max_symbol sizes n_columns n_rows ≤ k
      → fits_at sizes n_columns n_rows k ≡ true
  unfolding max_symbol
  max_symbol-fits_at k rows some_blobs room pos le =
      let q : ℕ = n_columns / length sizes in
      let share : length sizes * q ≤ n_columns = grind arith in
      let some_columns : 0 < q = grind arith in
      let divisor : 0 < q * n_rows = grind arith in
      let m : ℕ = div_ceil (maximum sizes) (q * n_rows) in
      let holds : maximum sizes ≤ m * (q * n_rows) =
        le-div_ceil (maximum sizes) (q * n_rows) divisor in
      let wide : m * (q * n_rows) ≤ k * (q * n_rows) = mul-le-mul_right (q * n_rows) le in
      let size : 0 < k * n_rows = grind arith in
      columns-fits_at k size
        (le_trans (columns_bound sizes (k * n_rows) q size (omega arith)) share)
