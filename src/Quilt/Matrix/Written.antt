-- ===== src/Quilt/Matrix/Written.antt =====
-- The loop of _write_blob_to_quilt in pytusk/core/encoding/quilt.py lays its bytes over the matrix.
use pytusk.Prelude.{
  ℕ, zero, suc, ◌+◌, ◌-◌, ◌*◌, ◌%◌, ◌<◌, ◌≤◌, min, ◌≡◌, refl, ap, ◌∙◌, arith, ltb, ◌==◌,
  if◌then◌else◌, length, take, drop, ◌⊎◌, inl, inr, Bool-cases, false, [], ◌∷◌, le→ltb_false,
  ltb→lt, ltb_false→le,
}
use native.Mathlib.Nat.{mod-eq_of_lt, mod_self}
use pytusk.Prelude.Bytes.{Bytes}
use pytusk.Prelude.Slices.{set_slice, length-set_slice, length-take, length-drop}
use pytusk.Errors.{Result, ok}
use pytusk.Quilt.Matrix.{write_run}
use pytusk.Quilt.Matrix.Overlay.{byte_at, overlay, slice_inside, slice-overlay, overlay-split}

module _ (symbol_size n_columns n_rows : ℕ) (symbols : 0 < symbol_size) (rows : 0 < n_rows) where
  -- A written matrix: the buffer keeps its length, and the run lies over its bytes.
  pub record IsWritten (quilt : Bytes) (first : ℕ) (run : Bytes) (out : Result Bytes) : Type 0 where
    pub written : Bytes
    pub returns : out ≡ ok written
    pub keeps : length written ≡ n_rows * (symbol_size * n_columns)
    pub reads :
        (position : ℕ)
        → position < n_columns * n_rows * symbol_size
        → byte_at symbol_size n_columns n_rows written position
          ≡ overlay first run position (byte_at symbol_size n_columns n_rows quilt position)

  column_inside :
      (c r o : ℕ)
      → (c * n_rows + r) * symbol_size + o < n_columns * n_rows * symbol_size
      → c < n_columns
  column_inside c r o h = grind arith

  next_inside :
      (c r : ℕ)
      → c < n_columns
      → r < n_rows
      → (c * n_rows + r) * symbol_size + symbol_size ≤ n_columns * n_rows * symbol_size
  next_inside c r hc hr = grind arith

  suc-mul : (a b : ℕ) → (a + 1) * b ≡ a * b + b
  suc-mul a b = grind arith

  suc_nonzero : (r : ℕ) → ((r + 1) == 0) ≡ false
  suc_nonzero r = ground arith

  cons_nonzero : (n : ℕ) → (suc n == 0) ≡ false
  cons_nonzero n = ground arith

  next_symbol :
      (c r : ℕ)
      → r < n_rows
      → ((if (r + 1) % n_rows == 0 then c + 1 else c) * n_rows + (r + 1) % n_rows) * symbol_size
        ≡ (c * n_rows + r) * symbol_size + symbol_size
  next_symbol c r h = elim (Bool-cases (ltb (r + 1) n_rows)) [
    | inl y ↦
        let e : (r + 1) % n_rows ≡ r + 1 = mod-eq_of_lt (ltb→lt _ _ y) in
        rw e (rw (suc_nonzero r) (grind arith))
    | inr n ↦
        let same : r + 1 ≡ n_rows = omega (arith, ltb_false→le _ _ n) in
        let e : (r + 1) % n_rows ≡ 0 = ap (λ k. k % n_rows) same ∙ mod_self n_rows in
        let next : ((c + 1) * n_rows + 0) * symbol_size
            ≡ (c * n_rows + r) * symbol_size + symbol_size =
          let column_done : (c + 1) * n_rows + 0 ≡ c * n_rows + r + 1 =
            omega (arith, suc-mul c n_rows, same) in
          rw column_done (suc-mul (c * n_rows + r) symbol_size) in
        rw e next
  ]

  suc_row-lt : (r : ℕ) → (r + 1) % n_rows < n_rows
  suc_row-lt r = grind arith

  -- A round ends with the data, or at the next symbol.
  whole_or_symbol :
      (c r o size : ℕ)
      → r < n_rows
      → o < symbol_size
      → (((if (r + 1) % n_rows == 0 then c + 1 else c) * n_rows + (r + 1) % n_rows) * symbol_size
            + 0
          ≡ (c * n_rows + r) * symbol_size + o + min (symbol_size - o) size)
        ⊎ (size ≡ min (symbol_size - o) size)
  whole_or_symbol c r o size hr ho = elim (Bool-cases (ltb size (symbol_size - o))) [
    | inl y ↦ inr (omega (arith, ltb→lt _ _ y))
    | inr n ↦ inl (omega (arith, ltb_false→le _ _ n, next_symbol c r hr))
  ]

  -- A run that fits between its position and the matrix's end.
  pub write_run-IsWritten :
      (fuel : ℕ) (quilt : Bytes) (c r o : ℕ) (run : Bytes)
      → length run ≤ fuel
      → length quilt ≡ n_rows * (symbol_size * n_columns)
      → r < n_rows
      → o < symbol_size
      → (c * n_rows + r) * symbol_size + o + length run ≤ n_columns * n_rows * symbol_size
      → IsWritten quilt
          ((c * n_rows + r) * symbol_size + o)
          run
          (write_run fuel (symbol_size * n_columns) symbol_size n_rows quilt c r o run)
  unfolding write_run
  write_run-IsWritten zero quilt c r o [] le whole hr ho room = record {
    written = quilt;
    returns = refl;
    keeps = whole;
    reads = λ p h. ground arith;
  }
  write_run-IsWritten zero quilt c r o (x ∷ run) le whole hr ho room = absurd (omega arith)
  write_run-IsWritten (suc fuel) quilt c r o [] le whole hr ho room = record {
    written = quilt;
    returns = refl;
    keeps = whole;
    reads = λ p h. ground arith;
  }
  write_run-IsWritten (suc fuel) quilt c r o (x ∷ run) le whole hr ho room =
      let all = x ∷ run in
      let size = min (symbol_size - o) (length all) in
      let hc : c < n_columns = column_inside c r o (omega arith) in
      let taken : length (take size all) ≡ size = omega (arith, length-take size all) in
      let fits : o + length (take size all) ≤ symbol_size = omega (arith, taken) in
      let start = r * (symbol_size * n_columns) + c * symbol_size + o in
      let inside =
        slice_inside symbol_size n_columns n_rows symbols rows quilt whole c r o (take size all) hc
          hr fits in
      let next_row = (r + 1) % n_rows in
      let next_col : ℕ = if next_row == 0 then c + 1 else c in
      let ih =
        write_run-IsWritten fuel (set_slice quilt start (take size all)) next_col next_row 0
          (drop size all) (omega (arith, length-drop size all))
          (length-set_slice quilt start (take size all) inside ∙ whole) (suc_row-lt r) symbols
          (omega (arith, next_symbol c r hr, next_inside c r hc hr, length-drop size all)) in
      record {
        written = ih.written;
        returns = rw (cons_nonzero (length run)) (
            rw (le→ltb_false (length quilt) (start + size) (omega (arith, inside, taken)))
              ih.returns);
        keeps = ih.keeps;
        reads = λ p h.
            ih.reads p h
            ∙ ap (overlay ((next_col * n_rows + next_row) * symbol_size + 0) (drop size all) p) (
                slice-overlay symbol_size n_columns n_rows symbols rows quilt whole c r o
                  (take size all) hc hr fits p h)
            ∙ overlay-split ((c * n_rows + r) * symbol_size + o)
                ((next_col * n_rows + next_row) * symbol_size + 0) size all p
                (byte_at symbol_size n_columns n_rows quilt p) (omega arith)
                (whole_or_symbol c r o (length all) hr ho);
      }
