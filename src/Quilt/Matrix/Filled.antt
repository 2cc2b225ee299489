-- ===== src/Quilt/Matrix/Filled.antt =====
-- _write_blob_to_quilt of pytusk/core/encoding/quilt.py implements an abstract view of the matrix, in
-- which a blob lies in one piece.
use native.Mathlib.Nat.{mul-mod_right, mul-div_right}
use pytusk.Prelude.{
  ℕ, ◌+◌, ◌-◌, ◌*◌, ◌/◌, ◌%◌, ◌<◌, ◌≤◌, ◌≡◌, refl, ap, ◌∙◌, subst, arith, ◌==◌, length, [], ◌++◌,
  Option, none, some, false, length-append,
}
use pytusk.Prelude.Arith.{div_ceil}
use pytusk.Prelude.Bytes.{Bytes}
use pytusk.Prelude.Slices.{get_or-append}
use pytusk.Errors.{Result, ok}
use pytusk.Quilt.Matrix.{write_run, write_bytes, write_prefix, write_blob_to_quilt}
use pytusk.Quilt.Matrix.Overlay.{byte_at, overlay}
use pytusk.Quilt.Matrix.Written.{IsWritten, write_run-IsWritten}

abbrev pub prefix_of : Option Bytes → Bytes
prefix_of none = []
prefix_of (some prefix) = prefix

overlay-append :
    (first : ℕ) (xs ys : Bytes) (position under : ℕ)
    → overlay (first + length xs) ys position (overlay first xs position under)
      ≡ overlay first (xs ++ ys) position under
overlay-append first xs ys position under =
    ground (arith, length-append xs ys, get_or-append xs ys (position - first) 0)

nonzero : (n : ℕ) → 0 < n → (n == 0) ≡ false
nonzero n h = ground arith

quotient_back : (n d : ℕ) → n / d * d + n % d ≡ n
quotient_back n d = grind arith

add-mul : (a b d : ℕ) → (a + b) * d ≡ a * d + b * d
add-mul a b d = grind arith

module _ (symbol_size n_columns n_rows : ℕ) (symbols : 0 < symbol_size) (rows : 0 < n_rows) where
  abbrev column_size : ℕ
  column_size = symbol_size * n_rows

  mul_regroup : (k : ℕ) → k * n_rows * symbol_size ≡ k * column_size
  mul_regroup k = grind arith

  position_of :
      (start n : ℕ)
      → ((start + n / symbol_size / n_rows) * n_rows + n / symbol_size % n_rows) * symbol_size
          + n % symbol_size
        ≡ start * column_size + n
  position_of start n =
      let column_of : (start + n / symbol_size / n_rows) * n_rows + n / symbol_size % n_rows
          ≡ start * n_rows + n / symbol_size =
        omega (
          arith,
          add-mul start (n / symbol_size / n_rows) n_rows,
          quotient_back (n / symbol_size) n_rows,
        ) in
      rw column_of (
        omega (
          arith,
          add-mul (start * n_rows) (n / symbol_size) symbol_size,
          quotient_back n symbol_size,
          mul_regroup start,
        ))

  write_bytes-IsWritten :
      (start n : ℕ) (quilt run : Bytes)
      → length quilt ≡ n_rows * (symbol_size * n_columns)
      → start * column_size + n + length run ≤ n_columns * column_size
      → IsWritten symbol_size n_columns n_rows symbols rows quilt
          (start * column_size + n)
          run
          (write_bytes (symbol_size * n_columns) symbol_size n_rows start quilt n run)
  unfolding write_bytes
  write_bytes-IsWritten start n quilt run whole room = rw (nonzero n_rows rows) (
      subst
        (λ first. IsWritten symbol_size n_columns n_rows symbols rows quilt first run (
          write_run (length run) (symbol_size * n_columns) symbol_size n_rows quilt
            (start + n / symbol_size / n_rows) (n / symbol_size % n_rows) (n % symbol_size) run))
        (position_of start n)
        (write_run-IsWritten symbol_size n_columns n_rows symbols rows (length run) quilt
          (start + n / symbol_size / n_rows) (n / symbol_size % n_rows) (n % symbol_size) run
          (omega arith) whole (grind arith) (grind arith)
          (omega (arith, position_of start n, mul_regroup n_columns))))

  -- A matrix into which a blob is written: the number of columns that the blob takes is returned, the
  -- buffer keeps its length, and in the order of the columns the run lies over the bytes that were there.
  pub record IsFilled (quilt : Bytes) (start : ℕ) (run : Bytes) (out : Result (Bytes × ℕ))
      : Type 0 where
    pub written : Bytes
    pub returns : out ≡ ok (written, div_ceil (length run) (symbol_size * n_rows))
    pub keeps : length written ≡ n_rows * (symbol_size * n_columns)
    pub reads :
        (position : ℕ)
        → position < n_columns * n_rows * symbol_size
        → byte_at symbol_size n_columns n_rows written position
          ≡ overlay
              (start * (symbol_size * n_rows))
              run
              position
              (byte_at symbol_size n_columns n_rows quilt position)

  module _ (quilt : Bytes) (start : ℕ)
      (whole : length quilt ≡ n_rows * (symbol_size * n_columns)) where
    -- What write_prefix has done: the prefix, if there is one, lies over the matrix.
    record IsPrefixed (prefix : Option Bytes) (out : Result (Bytes × ℕ)) : Type 0 where
      written : Bytes
      returns : out ≡ ok (written, length (prefix_of prefix))
      keeps : length written ≡ n_rows * (symbol_size * n_columns)
      reads :
          (position : ℕ)
          → position < n_columns * n_rows * symbol_size
          → byte_at symbol_size n_columns n_rows written position
            ≡ overlay
                (start * column_size)
                (prefix_of prefix)
                position
                (byte_at symbol_size n_columns n_rows quilt position)

    write_prefix-IsPrefixed :
        (prefix : Option Bytes)
        → start * column_size + length (prefix_of prefix) ≤ n_columns * column_size
        → IsPrefixed prefix
            (write_prefix (symbol_size * n_columns) symbol_size n_rows start quilt prefix)
    unfolding write_prefix
    write_prefix-IsPrefixed none room = record {
      written = quilt;
      returns = refl;
      keeps = whole;
      reads = λ p h. ground arith;
    }
    write_prefix-IsPrefixed (some prefix) room =
        let w = write_bytes-IsWritten start 0 quilt prefix whole (omega arith) in
        record {
          written = w.written;
          returns = rw w.returns refl;
          keeps = w.keeps;
          reads = λ p h.
              w.reads p h
              ∙ ap (λ k. overlay k prefix p (byte_at symbol_size n_columns n_rows quilt p))
                  (omega arith);
        }

  -- For a matrix with rows, of symbols with bytes: if a blob and its prefix fit between their first
  -- column and the matrix's end, _write_blob_to_quilt succeeds. It returns the number of whole columns
  -- that they take and keeps the buffer's length; read in the order of the columns, the prefix and the
  -- blob lie over the bytes that were there, from the top of the first column on, and all other bytes
  -- are as they were.
  pub write_blob_to_quilt-IsFilled :
      (quilt blob : Bytes) (start : ℕ) (prefix : Option Bytes)
      → length quilt ≡ n_rows * (symbol_size * n_columns)
      → start * (symbol_size * n_rows) + length (prefix_of prefix ++ blob)
        ≤ n_columns * (symbol_size * n_rows)
      → IsFilled quilt start (prefix_of prefix ++ blob) (
          write_blob_to_quilt quilt blob
            (symbol_size * n_columns)
            (symbol_size * n_rows)
            symbol_size
            start
            prefix)
  unfolding write_blob_to_quilt
  write_blob_to_quilt-IsFilled quilt blob start prefix whole room =
      let split = length-append (prefix_of prefix) blob in
      let p = write_prefix-IsPrefixed quilt start whole prefix (omega (arith, split)) in
      let w =
        write_bytes-IsWritten start (length (prefix_of prefix)) p.written blob p.keeps
          (omega (arith, split)) in
      record {
        written = w.written;
        returns =
            rw
              (
                nonzero symbol_size symbols,
                mul-mod_right symbol_size n_columns,
                mul-mod_right symbol_size n_rows,
                mul-div_right n_rows symbols,
                p.returns,
              )
              (rw (w.returns, split) refl);
        keeps = w.keeps;
        reads = λ q h.
            w.reads q h
            ∙ ap (overlay (start * column_size + length (prefix_of prefix)) blob q) (p.reads q h)
            ∙ overlay-append (start * column_size) (prefix_of prefix) blob q
                (byte_at symbol_size n_columns n_rows quilt q);
      }
