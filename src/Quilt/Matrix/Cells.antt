-- ===== src/Quilt/Matrix/Cells.antt =====
-- The cells of a quilt's matrix (pytusk/core/encoding/quilt.py) in the order of its columns.
use pytusk.Prelude.{ℕ, ◌+◌, ◌-◌, ◌*◌, ◌/◌, ◌%◌, ◌<◌, ◌≤◌, ◌≡◌, refl, ap, ◌∙◌, sym, arith}

-- The index in the buffer of the byte at a position of the column-major order.
abbrev pub cell : ℕ → ℕ → ℕ → ℕ → ℕ
cell symbol_size n_columns n_rows position =
    position / symbol_size % n_rows * (symbol_size * n_columns)
    + position / symbol_size / n_rows * symbol_size
    + position % symbol_size

split_div : (q d r : ℕ) → r < d → (q * d + r) / d ≡ q
split_div q d r h = grind arith

split_mod : (q d r : ℕ) → r < d → (q * d + r) % d ≡ r
split_mod q d r h = grind arith

-- A number between two multiples.
quotient_unique : (q d x : ℕ) → q * d ≤ x → x < q * d + d → x / d ≡ q
quotient_unique q d x l u = grind (arith, split_div)

div-lt : (x k d : ℕ) → 0 < d → x < k * d → x / d < k
div-lt x k d h l = grind arith

module _ (symbol_size n_columns n_rows : ℕ) where
  pub cell-at :
      (c r o : ℕ)
      → r < n_rows
      → o < symbol_size
      → cell symbol_size n_columns n_rows ((c * n_rows + r) * symbol_size + o)
        ≡ r * (symbol_size * n_columns) + c * symbol_size + o
  cell-at c r o hr ho = rw (split_div (c * n_rows + r) symbol_size o ho) (
      rw (split_mod (c * n_rows + r) symbol_size o ho)
        (rw (split_div c n_rows r hr) (rw (split_mod c n_rows r hr) refl)))

  -- The index of a cell, by whole symbols.
  by_symbols :
      (c r o : ℕ)
      → r * (symbol_size * n_columns) + c * symbol_size + o ≡ (r * n_columns + c) * symbol_size + o
  by_symbols c r o = grind arith

  module _ (symbols : 0 < symbol_size) (rows : 0 < n_rows) (position : ℕ)
      (inside : position < n_columns * n_rows * symbol_size) where
    abbrev column : ℕ
    column = position / symbol_size / n_rows

    abbrev row : ℕ
    row = position / symbol_size % n_rows

    pub column-lt : column < n_columns
    column-lt =
        div-lt (position / symbol_size) n_columns n_rows rows
          (div-lt position (n_columns * n_rows) symbol_size symbols inside)

    row-lt : row < n_rows
    row-lt = grind arith

    offset-lt : position % symbol_size < symbol_size
    offset-lt = grind arith

    pub position_parts : position ≡ (column * n_rows + row) * symbol_size + position % symbol_size
    position_parts = grind arith

    -- A cell of the symbol at column `c` and row `r` has its position there.
    pub symbol_of_cell :
        (c r : ℕ)
        → c < n_columns
        → r * (symbol_size * n_columns) + c * symbol_size
          ≤ cell symbol_size n_columns n_rows position
        → cell symbol_size n_columns n_rows position
          < r * (symbol_size * n_columns) + c * symbol_size + symbol_size
        → (column ≡ c) × (row ≡ r)
    symbol_of_cell c r hc above below =
        let same : row * n_columns + column ≡ r * n_columns + c =
          sym (split_div (row * n_columns + column) symbol_size (position % symbol_size) offset-lt)
          ∙ ap (λ x. x / symbol_size) (sym (by_symbols column row (position % symbol_size)))
          ∙ quotient_unique (r * n_columns + c) symbol_size
              (cell symbol_size n_columns n_rows position) (omega (arith, by_symbols c r 0))
              (omega (arith, by_symbols c r 0)) in
        (
          sym (split_mod row n_columns column column-lt)
              ∙ ap (λ x. x % n_columns) same
              ∙ split_mod r n_columns c hc,
          sym (split_div row n_columns column column-lt)
              ∙ ap (λ x. x / n_columns) same
              ∙ split_div r n_columns c hc,
        )

    -- Within a symbol, cells run as positions do.
    module _ (c r o size : ℕ) (hc : c < n_columns) (hr : r < n_rows)
        (fits : o + size ≤ symbol_size) where
      abbrev start : ℕ
      start = r * (symbol_size * n_columns) + c * symbol_size + o

      abbrev first : ℕ
      first = (c * n_rows + r) * symbol_size + o

      pub cell_of_window :
          first ≤ position
          → position < first + size
          → cell symbol_size n_columns n_rows position ≡ start + (position - first)
      cell_of_window above below =
          let e : position ≡ (c * n_rows + r) * symbol_size + (o + (position - first)) =
            omega arith in
          ap (cell symbol_size n_columns n_rows) e
          ∙ cell-at c r (o + (position - first)) hr (omega arith)
          ∙ omega arith

      pub window_of_cell :
          start ≤ cell symbol_size n_columns n_rows position
          → cell symbol_size n_columns n_rows position < start + size
          → position + start ≡ first + cell symbol_size n_columns n_rows position
      window_of_cell above below =
          let (same_column, same_row) = symbol_of_cell c r hc (omega arith) (omega arith) in
          let at : position ≡ (c * n_rows + r) * symbol_size + position % symbol_size =
            position_parts
            ∙ ap (λ k. (k * n_rows + row) * symbol_size + position % symbol_size) same_column
            ∙ ap (λ k. (c * n_rows + k) * symbol_size + position % symbol_size) same_row in
          let there : cell symbol_size n_columns n_rows position
              ≡ r * (symbol_size * n_columns) + c * symbol_size + position % symbol_size =
            ap (cell symbol_size n_columns n_rows) at
            ∙ cell-at c r (position % symbol_size) hr offset-lt in
          omega (arith, at, there)
