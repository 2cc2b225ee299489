-- ===== src/Quilt/Assembly/Total.antt =====
-- Once the patches of a quilt are sized, assemble_quilt (pytusk/core/encoding/quilt.py) succeeds.
use pytusk.Prelude.{
  ℕ, ◌+◌, ◌*◌, ◌^◌, ◌<◌, ◌≤◌, ◌≡◌, refl, ap, ◌∙◌, sym, arith, List, [], ◌∷◌, ◌++◌, length, map,
  length-append, inl, inr, ◌==◌, false,
}
use pytusk.Prelude.Arith.{div_ceil, div_ceil-le}
use pytusk.Prelude.Bytes.{Bytes, length-to_bytes_little, to_bytes_little}
use pytusk.Errors.{Result, ok, err, ◌>>=◌, Result-cases, ok-injective}
use pytusk.Redstuff.Sizes.{source_symbol_counts, rs2_max_symbol_size}
use pytusk.Redstuff.Sizes.Bounds.{counts_pos, source_symbol_counts_lem}
use pytusk.Quilt.Packing.{compute_symbol_size, max_num_slivers_for_quilt_index}
use pytusk.Quilt.Packing.Least.{compute_symbol_size-IsServing}
use pytusk.Quilt.Patches.{QuiltPatchInput, QuiltPatchLayout, QuiltPatchV1, Bcs, sorted_tag_entries}
use pytusk.Quilt.Patches.Limits.{to_bytes_fits}
use pytusk.Quilt.Assembly.{
  AssembledQuilt, assemble_quilt, ordered, validated, with_metadata, index_size_of, index_blob_of,
  placeholders, from_layouts, packed_size,
}
use pytusk.Quilt.Assembly.Placed.{Placed}
use pytusk.Quilt.Assembly.Readable.{IsPackedFrom, with_metadata-IsPackedFrom}
use pytusk.Quilt.Assembly.RoundTrip.{columns_fit, symbols_pos}
use pytusk.Quilt.Assembly.Whole.{filled_total}

-- Two indices that differ in the ends of their patches, which are u16.
abbrev pub DifferInEnds : List QuiltPatchV1 → List QuiltPatchV1 → Type 0
DifferInEnds [] [] = Unit
DifferInEnds [] (e ∷ entries) = ⊥
DifferInEnds (e ∷ entries) [] = ⊥
DifferInEnds (e ∷ entries) (f ∷ others) =
    (e.identifier ≡ f.identifier)
    × (e.tags ≡ f.tags)
    × (f.end_index < 2 ^ 16)
    × DifferInEnds entries others

-- BCS writes a u16 in two bytes, whatever it is: the length of a serialized index does not depend on the ends.
abbrev pub IsFixedWidth : Bcs → Type 0
IsFixedWidth bcs =
    (entries others : List QuiltPatchV1) (serialized : Bytes)
    → DifferInEnds entries others
    → bcs.serialize_index entries ≡ ok serialized
    → (again : Bytes) × (bcs.serialize_index others ≡ ok again) × (length again ≡ length serialized)

module _ (bcs : Bcs) (symbol_size n_columns n_rows : ℕ) (few : n_columns < 2 ^ 16)
    (quilt : Bytes) where
  -- The entries of a layout and of its placeholder.
  entries-DifferInEnds :
      (patches : List QuiltPatchInput) (packed : List (QuiltPatchInput × Bytes))
      (layouts : List QuiltPatchLayout) (column : ℕ) {entries : List QuiltPatchV1}
      → IsPackedFrom bcs patches packed
      → Placed symbol_size n_columns n_rows quilt column packed layouts
      → placeholders bcs patches ≡ ok entries
      → (others : List QuiltPatchV1) × (from_layouts bcs layouts ≡ ok others)
        × DifferInEnds entries others
  unfolding placeholders from_layouts
  entries-DifferInEnds [] [] [] column from placed e = ([], refl, rw (← ok-injective _ _ e) tt)
  entries-DifferInEnds [] [] (layout ∷ layouts) column from placed e = absurd placed
  entries-DifferInEnds [] (p ∷ packed) layouts column from placed e = absurd from
  entries-DifferInEnds (patch ∷ patches) [] layouts column from placed e = absurd from
  entries-DifferInEnds (patch ∷ patches) ((patch', meta) ∷ packed) [] column from placed e =
      absurd placed
  entries-DifferInEnds (patch ∷ patches) ((patch', meta) ∷ packed) (layout ∷ layouts) column
        (same, is, from) (at, inside, lies, placed) e =
      elim (Result-cases (sorted_tag_entries bcs patch.tags)) [
        | inl (raised, r) ↦ cc (rw r at e)
        | inr (tags, t) ↦ elim (Result-cases (placeholders bcs patches)) [
          | inl (raised, r) ↦ cc (rw r at (rw t at e))
          | inr (entries', r) ↦
              let (others, made, differ) =
                entries-DifferInEnds patches packed layouts
                  (column + div_ceil (length (meta ++ patch'.contents)) (symbol_size * n_rows)) from
                  placed r in
              let own_tags : layout.tags ≡ patch.tags =
                ap (λ l. l.tags) at ∙ ap (λ p. p.tags) same in
              let own_name : layout.identifier ≡ patch.identifier =
                ap (λ l. l.identifier) at ∙ ap (λ p. p.identifier) same in
              (
                record { end_index = layout.end_index; identifier = layout.identifier; tags = tags }
                    ∷ others,
                rw (own_tags, t, made) refl,
                rw (← ok-injective _ _ (rw r at (rw t at e)))
                    (sym own_name, refl, omega arith, differ),
              )
        ]
      ]

nonempty : (n : ℕ) → 0 < n → (n == 0) ≡ false
nonempty n h = ground arith

ten_columns : (s r : ℕ) → s * (r * 10) ≡ 10 * (s * r)
ten_columns s r = grind arith

sized_index :
    (m : Result (List QuiltPatchV1)) (s : List QuiltPatchV1 → Result Bytes) {size : ℕ}
    → (m >>= λ entries. s entries >>= λ serialized. ok (5 + length serialized)) ≡ ok size
    → (entries : List QuiltPatchV1) × (serialized : Bytes) × (m ≡ ok entries)
      × (s entries ≡ ok serialized)
      × (5 + length serialized ≡ size)
sized_index (err raised) s e = cc
sized_index (ok entries) s e = elim (Result-cases (s entries)) [
  | inl (raised, r) ↦ cc (rw r at e)
  | inr (serialized, r) ↦ (entries, serialized, refl, r, ok-injective _ _ (rw r at e))
]

module _ (bcs : Bcs) where
  index_of_others :
      (layouts : List QuiltPatchLayout) {others : List QuiltPatchV1} {serialized : Bytes}
      → from_layouts bcs layouts ≡ ok others
      → bcs.serialize_index others ≡ ok serialized
      → length serialized < 2 ^ 32
      → (blob : Bytes) × (index_blob_of bcs layouts ≡ ok blob)
        × (length blob ≡ 5 + length serialized)
  unfolding index_blob_of
  index_of_others layouts {others} {serialized} m s low = (
    1 ∷ (to_bytes_little 4 (length serialized) ++ serialized),
    rw (m, s, to_bytes_fits 4 (length serialized) low) refl,
    omega (
      arith,
      length-append (to_bytes_little 4 (length serialized)) serialized,
      length-to_bytes_little 4 (length serialized),
    ),
  )

  index_low :
      (index_size symbol_size n_rows : ℕ)
      → index_size ≤ symbol_size * (n_rows * 10)
      → symbol_size ≤ rs2_max_symbol_size
      → n_rows ≤ 6553
      → index_size < 2 ^ 32
  index_low index_size symbol_size n_rows h s r =
      let a : symbol_size * (n_rows * 10) ≤ 65534 * (n_rows * 10) = grind arith in omega arith

  -- For at least one patch, at least one shard and at most 6553, and a serialization that writes a u16 in a fixed width: if the patches' identifiers are
  -- accepted, their metadata are built, the placeholder index serializes and compute_symbol_size finds a
  -- symbol size, then assemble_quilt returns a quilt. None of its later checks refuses: neither the number of
  -- the index's columns, nor the size of the index, nor a write past the matrix.
  pub assemble_quilt-total :
      (patches : List QuiltPatchInput) (n_shards : ℕ) {packed : List (QuiltPatchInput × Bytes)}
      {index_size symbol_size : ℕ}
      → IsFixedWidth bcs
      → n_shards ≤ 6553
      → 0 < n_shards
      → 0 < length patches
      → validated [] (ordered patches) ≡ ok tt
      → with_metadata bcs (ordered patches) ≡ ok packed
      → index_size_of bcs (ordered patches) ≡ ok index_size
      → compute_symbol_size
          (index_size ∷ map packed_size packed)
          (source_symbol_counts n_shards).1
          (source_symbol_counts n_shards).0
          max_num_slivers_for_quilt_index
        ≡ ok symbol_size
      → (out : AssembledQuilt) × (assemble_quilt bcs patches n_shards ≡ ok out)
  unfolding assemble_quilt index_size_of
  assemble_quilt-total patches n_shards {packed} {index_size} {symbol_size} fixed shards some_shards
        some v m i c =
      let n_rows : ℕ = (source_symbol_counts n_shards).0 in
      let n_columns : ℕ = (source_symbol_counts n_shards).1 in
      let (f, fe, ps, sn, fl, fu) = source_symbol_counts_lem n_shards some_shards in
      let (entries, serialized, placed_entries, s, is_size) =
        sized_index (placeholders bcs (ordered patches)) bcs.serialize_index i in
      let rows = (counts_pos n_shards).0 in
      let (even, usable, serves) =
        compute_symbol_size-IsServing (index_size ∷ map packed_size packed) n_columns n_rows
          max_num_slivers_for_quilt_index rows (omega arith) c in
      let symbols = symbols_pos symbol_size n_rows serves.prefix in
      let low = index_low index_size symbol_size n_rows serves.index usable (omega arith) in
      let room =
        columns_fit (index_size ∷ map packed_size packed) n_columns (symbol_size * n_rows)
          serves.fits in
      let (out, filled_ok) =
        filled_total symbol_size n_columns n_rows bcs symbols rows n_shards index_size packed room
          (div_ceil-le index_size (symbol_size * n_rows) 10 (grind arith)
            (omega (arith, serves.index, ten_columns symbol_size n_rows)))
          (λ quilt layouts placed.
            let (others, made, differ) =
              entries-DifferInEnds bcs symbol_size n_columns n_rows (omega arith) quilt
                (ordered patches) packed layouts (div_ceil index_size (symbol_size * n_rows))
                (with_metadata-IsPackedFrom bcs (ordered patches) m) placed placed_entries in
            let (again, s', same_length) = fixed entries others serialized differ s in
            let (blob, blob_made, blob_size) =
              index_of_others layouts made s' (omega (arith, same_length, is_size)) in
            (blob, blob_made, omega (arith, blob_size, same_length, is_size))) in
      (out, rw (nonempty (length patches) some, v, m, i, c) filled_ok)
