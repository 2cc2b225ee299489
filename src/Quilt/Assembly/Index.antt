-- ===== src/Quilt/Assembly/Index.antt =====
-- The index of an assembled quilt (pytusk/core/encoding/quilt.py) is read back.
use pytusk.Prelude.{
  ℕ, ◌+◌, ◌-◌, ◌*◌, ◌<◌, ◌≤◌, ◌≡◌, ap, ◌∙◌, sym, subst, arith, List, ◌∷◌, ◌++◌, length, map, drop,
  inl, inr,
}
use pytusk.Prelude.Arith.{div_ceil, le-div_ceil}
use pytusk.Prelude.Bytes.{Bytes}
use pytusk.Errors.{ok, Result-cases, ok-injective}
use pytusk.Quilt.Packing.{columns}
use pytusk.Quilt.Patches.{QuiltPatchInput, QuiltPatchV1, Bcs, to_bytes}
use pytusk.Quilt.Reading.{read_index, read_columns, sized}
use pytusk.Quilt.Reading.Framing.{sized-framed}
use pytusk.Quilt.Reading.Columns.{read_columns-run}
use pytusk.Quilt.Assembly.{AssembledQuilt, index_blob_of, from_layouts, packed_size}
use pytusk.Quilt.Assembly.Placed.{LiesAt}
use pytusk.Quilt.Assembly.Whole.{IsWhole}

mul_mono : (a b d : ℕ) → a ≤ b → a * d ≤ b * d
mul_mono a b d h = grind arith

module _ (bcs : Bcs) where
  -- The blob of the index is a version, a length and the serialized index.
  pub record IsIndex (symbol_size n_columns n_rows : ℕ) (out : AssembledQuilt) : Type 0 where
    pub entries : List QuiltPatchV1
    pub indexed : from_layouts bcs out.patches ≡ ok entries
    pub serialized :
        bcs.serialize_index entries ≡ ok (read_index symbol_size n_columns n_rows out.content)

  module _ (symbol_size n_columns n_rows : ℕ) (symbols : 0 < symbol_size) (rows : 0 < n_rows) where
    index_room :
        (index_size : ℕ) (packed : List (QuiltPatchInput × Bytes))
        → columns (index_size ∷ map packed_size packed) (symbol_size * n_rows) ≤ n_columns
        → index_size ≤ n_columns * (symbol_size * n_rows)
    unfolding columns
    index_room index_size packed room =
        let taken = div_ceil index_size (symbol_size * n_rows) in
        let fits = le-div_ceil index_size (symbol_size * n_rows) (grind arith) in
        let inside : taken * (symbol_size * n_rows) ≤ n_columns * (symbol_size * n_rows) =
          mul_mono taken n_columns (symbol_size * n_rows) (omega arith) in
        omega (arith, fits, inside)

    read_index_lem :
        (content index_bytes size : Bytes)
        → to_bytes 4 (length index_bytes) ≡ ok size
        → length (1 ∷ (size ++ index_bytes)) ≤ n_columns * (symbol_size * n_rows)
        → LiesAt symbol_size n_columns n_rows content 0 (1 ∷ (size ++ index_bytes))
        → read_index symbol_size n_columns n_rows content ≡ index_bytes
    unfolding read_index
    read_index_lem content index_bytes size written room lies =
        let blob = 1 ∷ (size ++ index_bytes) in
        let all = n_columns * (symbol_size * n_rows) in
        let e : all ≡ length blob + (all - length blob) = omega arith in
        ap (λ n. sized 4 (drop 1 (read_columns symbol_size n_columns n_rows content n 0))) e
        ∙ ap (λ bytes. sized 4 (drop 1 bytes))
            (read_columns-run symbol_size n_columns n_rows content blob (all - length blob) 0 lies)
        ∙ sized-framed index_bytes size
            (read_columns symbol_size n_columns n_rows content (all - length blob)
              (0 + length blob))
            written

    pub IsWhole-IsIndex :
        (n_shards index_size : ℕ) (packed : List (QuiltPatchInput × Bytes)) (out : AssembledQuilt)
        → columns (index_size ∷ map packed_size packed) (symbol_size * n_rows) ≤ n_columns
        → IsWhole symbol_size n_columns n_rows bcs n_shards index_size packed out
        → IsIndex symbol_size n_columns n_rows out
    unfolding index_blob_of columns
    IsWhole-IsIndex n_shards index_size packed out room w =
        let made = w.made in
        elim (Result-cases (from_layouts bcs out.patches)) [
          | inl (raised, r) ↦ cc (rw r at made)
          | inr (entries, indexed) ↦ elim (Result-cases (bcs.serialize_index entries)) [
            | inl (raised, r) ↦ cc (rw r at (rw indexed at made))
            | inr (index_bytes, serialized) ↦
                elim (Result-cases (to_bytes 4 (length index_bytes))) [
                  | inl (raised, r) ↦ cc (rw r at (rw serialized at (rw indexed at made)))
                  | inr (size, written) ↦
                      let blob : 1 ∷ (size ++ index_bytes) ≡ w.index_blob =
                        ok-injective _ _ (rw written at (rw serialized at (rw indexed at made))) in
                      let found =
                        read_index_lem out.content index_bytes size written
                          (subst (λ b. length b ≤ n_columns * (symbol_size * n_rows)) (sym blob)
                            (omega (arith, w.sized, index_room index_size packed room)))
                          (subst (LiesAt symbol_size n_columns n_rows out.content 0) (sym blob)
                            w.lies) in
                      record {
                        entries = entries;
                        indexed = indexed;
                        serialized = serialized ∙ ap ok (sym found);
                      }
                ]
          ]
        ]
