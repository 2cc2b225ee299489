-- ===== src/Quilt/Assembly/Placed.antt =====
-- The loop of assemble_quilt (pytusk/core/encoding/quilt.py) places each blob in columns of its own.
use pytusk.Prelude.{
  ℕ, ◌+◌, ◌-◌, ◌*◌, ◌<◌, ◌≤◌, ◌≡◌, refl, ap, ◌∙◌, arith, List, [], ◌∷◌, ◌++◌, length, get_or, map,
  length-append, some,
}
use pytusk.Prelude.Arith.{div_ceil, le-div_ceil}
use pytusk.Prelude.Bytes.{Bytes}
use pytusk.Errors.{Result, ok}
use pytusk.Quilt.Packing.{columns}
use pytusk.Quilt.Matrix.Overlay.{byte_at, overlay}
use pytusk.Quilt.Matrix.Filled.{write_blob_to_quilt-IsFilled}
use pytusk.Quilt.Patches.{QuiltPatchInput, QuiltPatchLayout}
use pytusk.Quilt.Assembly.{place_patches, layout_of, packed_size}

pub overlay_inside :
    (first : ℕ) (run : Bytes) (i under : ℕ)
    → i < length run
    → overlay first run (first + i) under ≡ get_or run i 0
overlay_inside first run i under h =
    let e : first + i - first ≡ i = omega arith in ground (arith, ap (λ k. get_or run k 0) e)

overlay_before :
    (first : ℕ) (run : Bytes) (position under : ℕ)
    → position < first
    → overlay first run position under ≡ under
overlay_before first run position under h = ground arith

pub overlay_after :
    (first : ℕ) (run : Bytes) (position under : ℕ)
    → first + length run ≤ position
    → overlay first run position under ≡ under
overlay_after first run position under h = ground arith

add-mul : (a b d : ℕ) → (a + b) * d ≡ a * d + b * d
add-mul a b d = grind arith

mul_mono : (a b d : ℕ) → a ≤ b → a * d ≤ b * d
mul_mono a b d h = grind arith

module _ (symbol_size n_columns n_rows : ℕ) where
  -- A run of bytes lies in the matrix from a position of the column-major order on.
  abbrev pub LiesAt : Bytes → ℕ → Bytes → Type 0
  LiesAt quilt first run =
      (i : ℕ)
      → i < length run
      → byte_at symbol_size n_columns n_rows quilt (first + i) ≡ get_or run i 0

  -- Each blob has as many whole columns as it needs, which follow those of the blob before it and lie
  -- in the matrix, and its metadata and its contents lie in one piece there.
  abbrev pub Placed : Bytes → ℕ → List (QuiltPatchInput × Bytes) → List QuiltPatchLayout → Type 0
  Placed quilt column [] [] = Unit
  Placed quilt column [] (layout ∷ layouts) = ⊥
  Placed quilt column (p ∷ packed) [] = ⊥
  Placed quilt column ((patch, meta) ∷ packed) (layout ∷ layouts) =
      (layout
        ≡ layout_of patch column
            (column + div_ceil (length (meta ++ patch.contents)) (symbol_size * n_rows)))
      × (layout.end_index ≤ n_columns)
      × LiesAt quilt (column * (symbol_size * n_rows)) (meta ++ patch.contents)
      × Placed quilt (column + div_ceil (length (meta ++ patch.contents)) (symbol_size * n_rows))
          packed layouts

  -- The matrix after the loop from a column on.
  pub record IsPlaced (quilt : Bytes) (column : ℕ) (packed : List (QuiltPatchInput × Bytes))
      (out : Result (Bytes × List QuiltPatchLayout)) : Type 0 where
    pub written : Bytes
    pub layouts : List QuiltPatchLayout
    pub returns : out ≡ ok (written, layouts)
    pub keeps : length written ≡ n_rows * (symbol_size * n_columns)
    pub before :
        (position : ℕ)
        → position < n_columns * n_rows * symbol_size
        → position < column * (symbol_size * n_rows)
        → byte_at symbol_size n_columns n_rows written position
          ≡ byte_at symbol_size n_columns n_rows quilt position
    pub places : Placed written column packed layouts

  module _ (symbols : 0 < symbol_size) (rows : 0 < n_rows) where
    abbrev column_size : ℕ
    column_size = symbol_size * n_rows

    column_size_pos : 0 < column_size
    column_size_pos = grind arith

    capacity_eq : n_columns * column_size ≡ n_columns * n_rows * symbol_size
    capacity_eq = grind arith

    run_end :
        (column : ℕ) (run : Bytes)
        → column * column_size + length run
          ≤ (column + div_ceil (length run) column_size) * column_size
    run_end column run = omega (
      arith,
      le-div_ceil (length run) column_size column_size_pos,
      add-mul column (div_ceil (length run) column_size) column_size,
    )

    pub place_patches-IsPlaced :
        (quilt : Bytes) (column : ℕ) (packed : List (QuiltPatchInput × Bytes))
        → length quilt ≡ n_rows * (symbol_size * n_columns)
        → column + columns (map packed_size packed) column_size ≤ n_columns
        → IsPlaced quilt column packed
            (place_patches (symbol_size * n_columns) column_size symbol_size quilt column packed)
    unfolding place_patches columns
    place_patches-IsPlaced quilt column [] whole room = record {
      written = quilt;
      layouts = [];
      returns = refl;
      keeps = whole;
      before = λ p h b. refl;
      places = tt;
    }
    place_patches-IsPlaced quilt column ((patch, meta) ∷ packed) whole room =
        let run = meta ++ patch.contents in
        let size = length-append meta patch.contents in
        let taken = div_ceil (length run) column_size in
        let same : taken ≡ div_ceil (packed_size (patch, meta)) column_size =
          ap (λ k. div_ceil k column_size) size in
        let inside : column + taken ≤ n_columns = omega (arith, same) in
        let end = mul_mono (column + taken) n_columns column_size inside in
        let w =
          write_blob_to_quilt-IsFilled symbol_size n_columns n_rows symbols rows quilt
            patch.contents column (some meta) whole (omega (arith, end, run_end column run)) in
        let ih =
          place_patches-IsPlaced w.written (column + taken) packed w.keeps (omega (arith, same)) in
        record {
          written = ih.written;
          layouts = layout_of patch column (column + taken) ∷ ih.layouts;
          returns = rw w.returns (rw ih.returns refl);
          keeps = ih.keeps;
          before = λ p h b.
              ih.before p h (omega (arith, run_end column run))
              ∙ w.reads p h
              ∙ overlay_before (column * column_size) run p _ b;
          places = (
            refl,
            inside,
            λ i h.
                ih.before (column * column_size + i)
                  (omega (arith, end, run_end column run, capacity_eq))
                  (omega (arith, run_end column run))
                ∙ w.reads (column * column_size + i)
                    (omega (arith, end, run_end column run, capacity_eq))
                ∙ overlay_inside (column * column_size) run i _ h,
            ih.places,
          );
        }
