-- ===== src/Quilt/Reading/Columns.antt =====
-- Reading a quilt's columns (pytusk/core/encoding/quilt.py) where a run of bytes lies in them.
use pytusk.Prelude.{ℕ, suc, ◌+◌, ◌<◌, ◌≡◌, ap, ap₂, ◌∙◌, arith, [], ◌∷◌, ◌++◌, length, get_or}
use pytusk.Prelude.Bytes.{Bytes}
use pytusk.Quilt.Matrix.Overlay.{byte_at}
use pytusk.Quilt.Reading.{read_columns}

module _ (symbol_size n_columns n_rows : ℕ) (quilt : Bytes) where
  pub read_columns-run :
      (run : Bytes) (more position : ℕ)
      → ((i : ℕ)
          → i < length run
          → byte_at symbol_size n_columns n_rows quilt (position + i) ≡ get_or run i 0)
      → read_columns symbol_size n_columns n_rows quilt (length run + more) position
        ≡ run ++ read_columns symbol_size n_columns n_rows quilt more (position + length run)
  unfolding read_columns
  read_columns-run [] more position lies =
      ap₂ (read_columns symbol_size n_columns n_rows quilt) (omega arith) (omega arith)
  read_columns-run (x ∷ run) more position lies =
      let e : suc (length run) + more ≡ suc (length run + more) = omega arith in
      let here : byte_at symbol_size n_columns n_rows quilt position ≡ x =
        ap (byte_at symbol_size n_columns n_rows quilt) {x = position} {y = position + 0}
          (omega arith)
        ∙ lies 0 (omega arith) in
      rw e (
        ap₂ ◌∷◌ here (
          read_columns-run run more (position + 1) (λ i h.
            ap (byte_at symbol_size n_columns n_rows quilt) (omega arith)
            ∙ lies (suc i) (omega arith))
          ∙ ap (λ k. run ++ read_columns symbol_size n_columns n_rows quilt more k) (omega arith)))
