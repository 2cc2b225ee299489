-- ===== src/Quilt/Packing.antt =====
-- The choice of a quilt's symbol size in pytusk/core/encoding/quilt.py. Sizes are naturals, and
-- the matrix has rows, as every committee's has.
pub mod Search
pub mod Columns
pub mod Least
use pytusk.Prelude.{
  ℕ, zero, suc, ◌+◌, ◌*◌, ◌/◌, ◌-◌, max, Bool, true, false, List, [], ◌∷◌, ltb, leb, length, not,
  if◌then◌else◌, ◌==◌,
}
use pytusk.Prelude.Arith.{div_ceil}
use pytusk.Errors.{Result, ok, err, quilt_assembly, raise_if, ◌>>=◌, ◌>>◌}
use pytusk.Redstuff.Sizes.{rs2_max_symbol_size, rs2_required_alignment}

abbrev pub quilt_index_prefix_size : ℕ
quilt_index_prefix_size = 5

abbrev pub max_num_slivers_for_quilt_index : ℕ
max_num_slivers_for_quilt_index = 10

-- sum(math.ceil(size / column_size) for size in blob_sizes)
unfoldable pub columns : List ℕ → ℕ → ℕ
columns [] column_size = 0
columns (size ∷ sizes) column_size = div_ceil size column_size + columns sizes column_size

unfoldable pub can_blobs_fit : List ℕ → ℕ → ℕ → Bool
unfolding columns
can_blobs_fit blob_sizes n_columns column_size =
    if leb column_size 0 then false else leb (columns blob_sizes column_size) n_columns

abbrev pub sum : List ℕ → ℕ
sum [] = 0
sum (x ∷ xs) = x + sum xs

abbrev pub maximum : List ℕ → ℕ
maximum [] = 0
maximum (x ∷ xs) = max x (maximum xs)

abbrev pub head_or : ℕ → List ℕ → ℕ
head_or d [] = d
head_or d (x ∷ xs) = x

-- `while min_val < max_val`: each round shortens the interval, so its length is fuel enough.
pub narrow : (ℕ → Bool) → ℕ → ℕ → ℕ → ℕ
narrow fits zero min_val max_val = min_val
narrow fits (suc fuel) min_val max_val =
    let mid = (min_val + max_val) / 2 in
    let lower = narrow fits fuel min_val mid in
    let upper = narrow fits fuel (mid + 1) max_val in
    let next : ℕ = if fits mid then lower else upper in
    if ltb min_val max_val then next else min_val

pub min_symbol : List ℕ → ℕ → ℕ → ℕ → ℕ
min_symbol blob_sizes n_columns n_rows max_index_columns =
    max (div_ceil (sum blob_sizes) (n_columns * n_rows)) (
      max (div_ceil (head_or 0 blob_sizes) (n_rows * max_index_columns))
        (div_ceil quilt_index_prefix_size n_rows))

pub max_symbol : List ℕ → ℕ → ℕ → ℕ
max_symbol blob_sizes n_columns n_rows =
    div_ceil (maximum blob_sizes) (n_columns / length blob_sizes * n_rows)

pub fits_at : List ℕ → ℕ → ℕ → ℕ → Bool
unfolding can_blobs_fit
fits_at blob_sizes n_columns n_rows size = can_blobs_fit blob_sizes n_columns (size * n_rows)

-- The smallest size that the search finds, rounded up to the alignment.
pub searched : List ℕ → ℕ → ℕ → ℕ → ℕ
unfolding narrow min_symbol max_symbol fits_at
searched blob_sizes n_columns n_rows max_index_columns =
    let lo = min_symbol blob_sizes n_columns n_rows max_index_columns in
    let hi = max_symbol blob_sizes n_columns n_rows in
    div_ceil (narrow (fits_at blob_sizes n_columns n_rows) (hi - lo) lo hi) rs2_required_alignment
    * rs2_required_alignment

unfoldable pub compute_symbol_size : List ℕ → ℕ → ℕ → ℕ → Result ℕ
unfolding searched fits_at
compute_symbol_size blob_sizes n_columns n_rows max_index_columns = do
  raise_if (length blob_sizes == 0) quilt_assembly
  raise_if (ltb n_columns (length blob_sizes)) quilt_assembly
  let symbol_size = searched blob_sizes n_columns n_rows max_index_columns
  raise_if (not (fits_at blob_sizes n_columns n_rows symbol_size)) quilt_assembly
  raise_if (ltb rs2_max_symbol_size symbol_size) quilt_assembly
  ok symbol_size
