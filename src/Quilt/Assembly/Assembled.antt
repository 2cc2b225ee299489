-- ===== src/Quilt/Assembly/Assembled.antt =====
-- What assemble_quilt (pytusk/core/encoding/quilt.py) returns can be read back.
use pytusk.Prelude.{
  ℕ, ◌+◌, ◌-◌, ◌*◌, ◌<◌, ◌≤◌, ◌≡◌, ap, ◌∙◌, sym, subst, arith, some, List, [], ◌∷◌, ◌++◌, length,
  length-append,
}
use pytusk.Prelude.Arith.{div_ceil, le-div_ceil}
use pytusk.Prelude.Bytes.{Bytes}
use pytusk.Quilt.Patches.{QuiltPatchInput, QuiltPatchLayout, Bcs, tag_bytes_of}
use pytusk.Quilt.Reading.{read_blob_at, read_columns, parse_blob}
use pytusk.Quilt.Reading.Framing.{parse-framed, framed_pos}
use pytusk.Quilt.Reading.Columns.{read_columns-run}
use pytusk.Quilt.Assembly.Placed.{Placed, LiesAt}
use pytusk.Quilt.Assembly.Readable.{IsFramed, IsPackedFrom, Readable}

mul_mono : (a b d : ℕ) → a ≤ b → a * d ≤ b * d
mul_mono a b d h = grind arith

div_ceil_pos : (a b : ℕ) → 0 < a → 0 < b → 0 < div_ceil a b
div_ceil_pos a b ha hb = grind arith

module _ (bcs : Bcs) (symbol_size n_columns n_rows : ℕ) (symbols : 0 < symbol_size)
    (rows : 0 < n_rows) (quilt : Bytes) where
  abbrev column_size : ℕ
  column_size = symbol_size * n_rows

  column_size_pos : 0 < column_size
  column_size_pos = grind arith

  -- A blob that lies at a column is read there.
  read-placed :
      (patch : QuiltPatchInput) (meta : Bytes) (column : ℕ) (is : IsFramed bcs patch meta)
      → column + div_ceil (length (meta ++ patch.contents)) column_size ≤ n_columns
      → LiesAt symbol_size n_columns n_rows quilt (column * column_size) (meta ++ patch.contents)
      → read_blob_at symbol_size n_columns n_rows quilt column
        ≡ some (record {
          identifier_bytes = is.identifier_bytes;
          tag_bytes = is.tag_bytes;
          contents = patch.contents;
        })
  unfolding read_blob_at
  read-placed patch meta column is inside lies =
      let run = meta ++ patch.contents in
      let all = (n_columns - column) * column_size in
      let fits : length run ≤ all = omega (
        arith,
        le-div_ceil (length run) column_size column_size_pos,
        mul_mono (div_ceil (length run) column_size) (n_columns - column) column_size (omega arith),
      ) in
      let e : all ≡ length run + (all - length run) = omega arith in
      ap
        (λ n. parse_blob (read_columns symbol_size n_columns n_rows quilt n (column * column_size)))
        e
      ∙ ap parse_blob (
          read_columns-run symbol_size n_columns n_rows quilt run (all - length run)
            (column * column_size) lies)
      ∙ parse-framed is.identifier_bytes is.tag_bytes patch.contents
          (read_columns symbol_size n_columns n_rows quilt (all - length run)
            (column * column_size + length run))
          is.frames

  pub Placed-Readable :
      (patches : List QuiltPatchInput) (packed : List (QuiltPatchInput × Bytes))
      (layouts : List QuiltPatchLayout) (column : ℕ)
      → IsPackedFrom bcs patches packed
      → Placed symbol_size n_columns n_rows quilt column packed layouts
      → Readable bcs symbol_size n_columns n_rows quilt column patches layouts
  Placed-Readable [] [] [] column from placed = tt
  Placed-Readable [] [] (layout ∷ layouts) column from placed = placed
  Placed-Readable [] (p ∷ packed) layouts column from placed = absurd from
  Placed-Readable (patch ∷ patches) [] layouts column from placed = absurd from
  Placed-Readable (patch ∷ patches) ((patch', meta) ∷ packed) [] column from placed = placed
  Placed-Readable (patch ∷ patches) ((patch', meta) ∷ packed) (layout ∷ layouts) column
        (same, is, from) (at, inside, lies, placed) =
      let taken = div_ceil (length (meta ++ patch'.contents)) column_size in
      let is' : IsFramed bcs patch' meta = subst (λ p. IsFramed bcs p meta) (sym same) is in
      let end : layout.end_index ≡ column + taken = ap (λ l. l.end_index) at in
      let some_bytes : 0 < taken =
        div_ceil_pos (length (meta ++ patch'.contents)) column_size
          (omega (
            arith,
            framed_pos _ is'.identifier_bytes is'.tag_bytes is'.frames,
            length-append meta patch'.contents,
          ))
          column_size_pos in
      (
        ap (λ l. l.identifier) at ∙ ap (λ p. p.identifier) same,
        ap (λ l. l.tags) at ∙ ap (λ p. p.tags) same,
        ap (λ l. l.start_index) at,
        omega (arith, end),
        inside,
        (
          is'.identifier_bytes,
          is'.tag_bytes,
          ap (λ p. bcs.encode_string p.identifier) (sym same) ∙ is'.encodes,
          ap (λ p. tag_bytes_of bcs p.tags) (sym same) ∙ is'.serializes,
          read-placed patch' meta column is' (omega (arith, end)) lies
              ∙ ap
                  (λ (p : QuiltPatchInput). some (record {
                    identifier_bytes = is'.identifier_bytes;
                    tag_bytes = is'.tag_bytes;
                    contents = p.contents;
                  }))
                  same,
        ),
        subst (λ c. Readable bcs symbol_size n_columns n_rows quilt c patches layouts) (sym end)
            (Placed-Readable patches packed layouts (column + taken) from placed),
      )
