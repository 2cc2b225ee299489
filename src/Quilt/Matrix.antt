-- ===== src/Quilt/Matrix.antt =====
-- The matrix of a quilt, filled column by column: _write_blob_to_quilt of
-- pytusk/core/encoding/quilt.py. Sizes, positions and columns are naturals.
pub mod Cells
pub mod Overlay
pub mod Written
pub mod Filled
use pytusk.Prelude.{
  ℕ, zero, suc, ◌+◌, ◌-◌, ◌*◌, ◌/◌, ◌%◌, min, not, Option, none, some, ltb, ◌==◌, if◌then◌else◌,
  length, take, drop,
}
use pytusk.Prelude.Arith.{div_ceil}
use pytusk.Prelude.Bytes.{Bytes}
use pytusk.Prelude.Slices.{set_slice}
use pytusk.Errors.{Result, ok, err, raise_if, ◌>>=◌, ◌>>◌, quilt_assembly, zero_division_error}

-- `while index < len(data)`: the bytes from `index` on are `run`, and the remaining_offset, which
-- only the first round has, is `offset`. Each round writes a byte at least, so the length of the data
-- is fuel enough.
pub write_run : ℕ → ℕ → ℕ → ℕ → Bytes → ℕ → ℕ → ℕ → Bytes → Result Bytes
unfolding set_slice
write_run zero row_size symbol_size n_rows quilt current_col current_row offset run = ok quilt
write_run (suc fuel) row_size symbol_size n_rows quilt current_col current_row offset run =
    let start_index = current_row * row_size + current_col * symbol_size + offset in
    let size = min (symbol_size - offset) (length run) in
    let next_row = (current_row + 1) % n_rows in
    let rest =
      write_run fuel row_size symbol_size n_rows (set_slice quilt start_index (take size run))
        (if next_row == 0 then current_col + 1 else current_col) next_row 0 (drop size run) in
    if length run == 0
    then ok quilt
    else if ltb (length quilt) (start_index + size)
    then err quilt_assembly
    else rest

-- The inner function write_bytes, `bytes_written` bytes after the start of `start_column`.
pub write_bytes : ℕ → ℕ → ℕ → ℕ → Bytes → ℕ → Bytes → Result Bytes
unfolding write_run
write_bytes row_size symbol_size n_rows start_column quilt bytes_written run = do
  raise_if (n_rows == 0) zero_division_error
  let symbols_to_skip = bytes_written / symbol_size
  write_run (length run) row_size symbol_size n_rows quilt (start_column + symbols_to_skip / n_rows)
      (symbols_to_skip % n_rows) (bytes_written % symbol_size) run

-- `if prefix is not None: write_bytes(prefix)`, with the bytes written so far.
pub write_prefix : ℕ → ℕ → ℕ → ℕ → Bytes → Option Bytes → Result (Bytes × ℕ)
unfolding write_bytes
write_prefix row_size symbol_size n_rows start_column quilt none = ok (quilt, 0)
write_prefix row_size symbol_size n_rows start_column quilt (some prefix) = do
  quilt' ← write_bytes row_size symbol_size n_rows start_column quilt 0 prefix
  ok (quilt', length prefix)

-- The filled matrix, and the number of whole columns consumed.
unfoldable pub write_blob_to_quilt :
    Bytes → Bytes → ℕ → ℕ → ℕ → ℕ → Option Bytes → Result (Bytes × ℕ)
unfolding write_prefix write_bytes
write_blob_to_quilt quilt blob row_size column_size symbol_size start_column prefix = do
  raise_if (symbol_size == 0) zero_division_error
  raise_if (not (row_size % symbol_size == 0)) quilt_assembly
  raise_if (not (column_size % symbol_size == 0)) quilt_assembly
  let n_rows = column_size / symbol_size
  (quilt', bytes_written) ← write_prefix row_size symbol_size n_rows start_column quilt prefix
  quilt'' ← write_bytes row_size symbol_size n_rows start_column quilt' bytes_written blob
  ok (quilt'', div_ceil (bytes_written + length blob) column_size)
