-- ===== src/Quilt/Assembly/Whole.antt =====
-- The matrix that assemble_quilt (pytusk/core/encoding/quilt.py) fills: the blobs first, the index last.
use pytusk.Prelude.{
  ℕ, ◌+◌, ◌*◌, ◌<◌, ◌≤◌, ◌≡◌, refl, ap, ◌∙◌, sym, subst, arith, none, List, [], ◌∷◌, ◌++◌, length,
  map, replicate, length-replicate, Bool-cases, inl, inr, ltb, ltb_false→le, le→ltb_false, ◌==◌,
  false, ==_iff,
}
use pytusk.Prelude.Arith.{div_ceil, le-div_ceil}
use pytusk.Prelude.Bytes.{Bytes}
use pytusk.Errors.{ok, Result-cases, ok-injective}
use pytusk.Quilt.Packing.{columns, max_num_slivers_for_quilt_index}
use pytusk.Quilt.Matrix.{write_blob_to_quilt}
use pytusk.Quilt.Matrix.Overlay.{byte_at, overlay}
use pytusk.Quilt.Matrix.Filled.{IsFilled, write_blob_to_quilt-IsFilled}
use pytusk.Quilt.Patches.{QuiltPatchInput, QuiltPatchLayout, Bcs}
use pytusk.Quilt.Assembly.{AssembledQuilt, filled, place_patches, index_blob_of, packed_size}
use pytusk.Quilt.Assembly.Placed.{
  Placed, LiesAt, IsPlaced, place_patches-IsPlaced, overlay_inside, overlay_after,
}

mul_mono : (a b d : ℕ) → a ≤ b → a * d ≤ b * d
mul_mono a b d h = grind arith

module _ (symbol_size n_columns n_rows : ℕ) where
  Placed-agree :
      (symbols : 0 < symbol_size) (rows : 0 < n_rows) (quilt quilt' : Bytes) (column : ℕ)
      (packed : List (QuiltPatchInput × Bytes)) (layouts : List QuiltPatchLayout)
      → ((position : ℕ)
          → column * (symbol_size * n_rows) ≤ position
          → position < n_columns * n_rows * symbol_size
          → byte_at symbol_size n_columns n_rows quilt' position
            ≡ byte_at symbol_size n_columns n_rows quilt position)
      → Placed symbol_size n_columns n_rows quilt column packed layouts
      → Placed symbol_size n_columns n_rows quilt' column packed layouts
  Placed-agree symbols rows quilt quilt' column [] [] same placed = placed
  Placed-agree symbols rows quilt quilt' column [] (layout ∷ layouts) same placed = placed
  Placed-agree symbols rows quilt quilt' column (p ∷ packed) [] same placed = placed
  Placed-agree symbols rows quilt quilt' column ((patch, meta) ∷ packed) (layout ∷ layouts) same
        (at, inside, lies, placed) =
      let taken = div_ceil (length (meta ++ patch.contents)) (symbol_size * n_rows) in
      let pos : 0 < symbol_size * n_rows = grind arith in
      let cap : n_columns * (symbol_size * n_rows) ≡ n_columns * n_rows * symbol_size =
        grind arith in
      let end : layout.end_index ≡ column + taken = ap (λ l. l.end_index) at in
      let whole = mul_mono (column + taken) n_columns (symbol_size * n_rows) (omega (arith, end)) in
      let split : (column + taken) * (symbol_size * n_rows)
          ≡ column * (symbol_size * n_rows) + taken * (symbol_size * n_rows) =
        grind arith in
      let fits = le-div_ceil (length (meta ++ patch.contents)) (symbol_size * n_rows) pos in
      (
        at,
        inside,
        λ i h.
            same (column * (symbol_size * n_rows) + i) (omega arith)
              (omega (arith, whole, split, fits, cap))
            ∙ lies i h,
        Placed-agree symbols rows quilt quilt' (column + taken) packed layouts
            (λ p a b. same p (omega (arith, split)) b) placed,
      )

  -- A filled matrix: every blob lies in its columns, and the index before all of them.
  pub record IsWhole (bcs : Bcs) (n_shards index_size : ℕ) (packed : List (QuiltPatchInput × Bytes))
      (out : AssembledQuilt) : Type 0 where
    pub shards : out.n_shards ≡ n_shards
    pub keeps : length out.content ≡ n_rows * (symbol_size * n_columns)
    pub few : div_ceil index_size (symbol_size * n_rows) ≤ max_num_slivers_for_quilt_index
    pub places :
        Placed symbol_size n_columns n_rows out.content
          (div_ceil index_size (symbol_size * n_rows))
          packed
          out.patches
    pub index_blob : Bytes
    pub made : index_blob_of bcs out.patches ≡ ok index_blob
    pub sized : length index_blob ≡ index_size
    pub lies : LiesAt symbol_size n_columns n_rows out.content 0 index_blob

  module _ (bcs : Bcs) (symbols : 0 < symbol_size) (rows : 0 < n_rows) (n_shards index_size : ℕ)
      (packed : List (QuiltPatchInput × Bytes))
      (room : columns (index_size ∷ map packed_size packed) (symbol_size * n_rows)
        ≤ n_columns) where
    abbrev column_size : ℕ
    column_size = symbol_size * n_rows

    abbrev index_columns : ℕ
    index_columns = div_ceil index_size column_size

    empty_matrix : Bytes
    empty_matrix = replicate (symbol_size * n_columns * n_rows) 0

    blobs : IsPlaced symbol_size n_columns n_rows empty_matrix index_columns packed (
        place_patches
          (symbol_size * n_columns)
          column_size
          symbol_size
          empty_matrix
          index_columns
          packed)
    unfolding columns empty_matrix
    blobs =
        place_patches-IsPlaced symbol_size n_columns n_rows symbols rows empty_matrix index_columns
          packed (length-replicate (symbol_size * n_columns * n_rows) 0 ∙ grind arith) room

    module _ (index_blob : Bytes) (sized : length index_blob ≡ index_size) where
      index_end : index_size ≤ index_columns * column_size
      index_end = le-div_ceil index_size column_size (grind arith)

      index_inside : index_columns ≤ n_columns
      unfolding columns
      index_inside = omega arith

      no_columns : 0 * column_size ≡ 0
      no_columns = omega arith

      index_fits : length index_blob ≤ n_columns * n_rows * symbol_size
      index_fits =
          let cap : n_columns * column_size ≡ n_columns * n_rows * symbol_size = grind arith in
          omega (
            arith,
            sized,
            index_end,
            cap,
            mul_mono index_columns n_columns column_size index_inside,
          )

      with_index : IsFilled symbol_size n_columns n_rows symbols rows (blobs.written) 0 index_blob (
          write_blob_to_quilt
            (blobs.written)
            index_blob
            (symbol_size * n_columns)
            column_size
            symbol_size
            0
            none)
      with_index =
          write_blob_to_quilt-IsFilled symbol_size n_columns n_rows symbols rows (blobs.written)
            index_blob 0 none blobs.keeps
            (omega
              (arith, sized, index_end, mul_mono index_columns n_columns column_size index_inside))

      result : AssembledQuilt
      result = record { content = with_index.written; patches = blobs.layouts; n_shards = n_shards }

      module _ (few : ltb max_num_slivers_for_quilt_index index_columns ≡ false)
          (made : index_blob_of bcs (blobs.layouts) ≡ ok index_blob) where
        result-IsWhole : IsWhole bcs n_shards index_size packed result
        unfolding result
        result-IsWhole = record {
          shards = refl;
          keeps = with_index.keeps;
          few = ltb_false→le _ _ few;
          places =
              Placed-agree symbols rows (blobs.written) (with_index.written) index_columns packed
                (blobs.layouts)
                (λ p a b.
                  with_index.reads p b
                  ∙ overlay_after (0 * column_size) index_blob p _
                      (omega (arith, sized, index_end)))
                blobs.places;
          index_blob = index_blob;
          made = made;
          sized = sized;
          lies = λ i h.
              with_index.reads (0 + i) (omega (arith, index_fits))
              ∙ ap
                  (λ k.
                    overlay k index_blob (0 + i)
                      (byte_at symbol_size n_columns n_rows (blobs.written) (0 + i)))
                  (no_columns)
              ∙ overlay_inside 0 index_blob i _ h;
        }

        filled_lem : filled bcs n_shards n_columns n_rows index_size symbol_size packed ≡ ok result
        unfolding filled result empty_matrix
        filled_lem =
            rw few
              (rw blobs.returns (rw made (rw ((==_iff _ _).1 sized) (rw with_index.returns refl))))

    pub filled-IsWhole :
        {out : AssembledQuilt}
        → filled bcs n_shards n_columns n_rows index_size symbol_size packed ≡ ok out
        → IsWhole bcs n_shards index_size packed out
    unfolding filled empty_matrix
    filled-IsWhole e = elim (Bool-cases (ltb max_num_slivers_for_quilt_index index_columns)) [
      | inl y ↦ cc (rw y at e)
      | inr few ↦ elim (Result-cases (index_blob_of bcs (blobs.layouts))) [
        | inl (raised, none_made) ↦ cc (rw (few, blobs.returns, none_made) at e)
        | inr (index_blob, made) ↦ elim (Bool-cases (length index_blob == index_size)) [
          | inl y ↦
              let sized = (==_iff _ _).0 y in
              subst (IsWhole bcs n_shards index_size packed)
                (ok-injective _ _ (sym (filled_lem index_blob sized few made) ∙ e))
                (result-IsWhole index_blob sized few made)
          | inr n ↦ cc (rw n at (rw made at (rw blobs.returns at (rw few at e))))
        ]
      ]
    ]

    -- A matrix is filled whenever the index has the size that was reserved.
    pub filled_total :
        index_columns ≤ max_num_slivers_for_quilt_index
        → ((out : Bytes) (layouts : List QuiltPatchLayout)
            → Placed symbol_size n_columns n_rows out index_columns packed layouts
            → (index_blob : Bytes) × (index_blob_of bcs layouts ≡ ok index_blob)
              × (length index_blob ≡ index_size))
        → (out : AssembledQuilt) × (filled bcs n_shards n_columns n_rows index_size symbol_size
              packed
            ≡ ok out)
    filled_total few index =
        let (index_blob, made, sized) = index (blobs.written) (blobs.layouts) blobs.places in
        (result index_blob sized, filled_lem index_blob sized (le→ltb_false _ _ few) made)
