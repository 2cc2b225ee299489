-- ===== src/Quilt/Matrix/Overlay.antt =====
-- What _write_blob_to_quilt of pytusk/core/encoding/quilt.py leaves in a quilt's matrix, read in the
-- order of its columns.
use pytusk.Prelude.{
  ℕ, ◌+◌, ◌-◌, ◌*◌, ◌<◌, ◌≤◌, ◌≡◌, refl, ap, ◌∙◌, arith, ltb, leb, ◌&&◌, if◌then◌else◌, length,
  get_or, take, drop, ◌⊎◌, inl, inr, Bool-cases, true, [],
}
use pytusk.Prelude.Bytes.{Bytes}
use pytusk.Prelude.Slices.{
  set_slice, get_or-set_slice, length-take, length-drop, get_or-take, get_or-drop,
}
use pytusk.Quilt.Matrix.Cells.{cell, cell_of_window, window_of_cell}

-- The byte at a position of the column-major order.
abbrev pub byte_at : ℕ → ℕ → ℕ → Bytes → ℕ → ℕ
byte_at symbol_size n_columns n_rows quilt position =
    get_or quilt (cell symbol_size n_columns n_rows position) 0

-- The byte at a position, if a run of bytes is laid over others from `first` on.
abbrev pub overlay : ℕ → Bytes → ℕ → ℕ → ℕ
overlay first run position under =
    if leb first position && ltb position (first + length run)
    then get_or run (position - first) 0
    else under

is_within :
    (first size position : ℕ)
    → (leb first position && ltb position (first + size)) ≡ true
    → (first ≤ position) × (position < first + size)
is_within first size position h = ground arith

within :
    (first size position : ℕ)
    → first ≤ position
    → position < first + size
    → (leb first position && ltb position (first + size)) ≡ true
within first size position l u = ground arith

-- Two windows of the size of a run, entered together and at the same distance.
same_window :
    (run : Bytes) (start at first position old : ℕ)
    → (first ≤ position → position < first + length run → at ≡ start + (position - first))
    → (start ≤ at → at < start + length run → position + start ≡ first + at)
    → (if leb start at && ltb at (start + length run) then get_or run (at - start) 0 else old)
      ≡ overlay first run position old
same_window run start at first position old to from =
    elim (Bool-cases (leb first position && ltb position (first + length run))) [
      | inl y ↦
          let (l, u) = is_within first (length run) position y in
          let e = to l u in
          rw y (
            rw (within start (length run) at (omega (arith, e)) (omega (arith, e)))
              (ap (λ i. get_or run i 0) (omega (arith, e))))
      | inr n ↦ elim (Bool-cases (leb start at && ltb at (start + length run))) [
        | inl y ↦
            let (l, u) = is_within start (length run) at y in
            let e = from l u in
            cc (n, within first (length run) position (omega (arith, e)) (omega (arith, e)))
        | inr m ↦ rw n (rw m refl)
      ]
    ]

module _ (symbol_size n_columns n_rows : ℕ) (symbols : 0 < symbol_size) (rows : 0 < n_rows) where
  abbrev pub capacity : ℕ
  capacity = n_columns * n_rows * symbol_size

  module _ (quilt : Bytes) (whole : length quilt ≡ n_rows * (symbol_size * n_columns)) (c r o : ℕ)
      (run : Bytes) (hc : c < n_columns) (hr : r < n_rows)
      (fits : o + length run ≤ symbol_size) where
    pub slice_inside :
        r * (symbol_size * n_columns) + c * symbol_size + o + length run ≤ length quilt
    slice_inside = rw whole (grind arith)

    -- One slice is an overlay.
    pub slice-overlay :
        (position : ℕ)
        → position < capacity
        → byte_at symbol_size n_columns n_rows
            (set_slice quilt (r * (symbol_size * n_columns) + c * symbol_size + o) run)
            position
          ≡ overlay
              ((c * n_rows + r) * symbol_size + o)
              run
              position
              (byte_at symbol_size n_columns n_rows quilt position)
    slice-overlay position inside =
        let start = r * (symbol_size * n_columns) + c * symbol_size + o in
        let first = (c * n_rows + r) * symbol_size + o in
        let at = cell symbol_size n_columns n_rows position in
        get_or-set_slice quilt start run at 0 slice_inside
        ∙ same_window run start at first position (get_or quilt at 0)
            (cell_of_window symbol_size n_columns n_rows symbols rows position inside c r o
              (length run) hc hr fits)
            (window_of_cell symbol_size n_columns n_rows symbols rows position inside c r o
              (length run) hc hr fits)

overlay-nil : (first position under : ℕ) → overlay first [] position under ≡ under
overlay-nil first position under = ground arith

-- A run in two parts, the second of which may be empty.
pub overlay-split :
    (first next size : ℕ) (run : Bytes) (position under : ℕ)
    → size ≤ length run
    → (next ≡ first + size) ⊎ (length run ≡ size)
    → overlay next (drop size run) position (overlay first (take size run) position under)
      ≡ overlay first run position under
overlay-split first next size run position under le how = ground (
  arith,
  length-take size run,
  length-drop size run,
  get_or-take size run (position - first) 0,
  get_or-drop size run (position - next) 0,
  how,
)
