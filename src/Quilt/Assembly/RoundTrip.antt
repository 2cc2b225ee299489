-- ===== src/Quilt/Assembly/RoundTrip.antt =====
-- assemble_quilt of pytusk/core/encoding/quilt.py as a whole: what it returns, a reader reads back.
use mathlib.Core.List.{Perm}
use pytusk.Prelude.{
  ℕ, zero, suc, ◌*◌, ◌<◌, ◌≤◌, ◌≡◌, refl, arith, List, [], ◌∷◌, length, map, Bool, true, false,
  Bool-cases, inl, inr, ◌==◌,
}
use pytusk.Prelude.Arith.{div_ceil}
use pytusk.Prelude.Bytes.{Bytes}
use pytusk.Errors.{Result, ok, err, raise_if, ◌>>=◌, ◌>>◌, Result-cases, quilt_assembly}
use pytusk.Redstuff.Sizes.{source_symbol_counts}
use pytusk.Redstuff.Sizes.Bounds.{counts_pos}
use pytusk.Quilt.Packing.{
  compute_symbol_size, can_blobs_fit, columns, max_num_slivers_for_quilt_index,
}
use pytusk.Quilt.Packing.Least.{compute_symbol_size-IsServing}
use pytusk.Quilt.Patches.{Text, QuiltPatchInput, QuiltPatchV1, Bcs, validate_quilt_identifier}
use pytusk.Quilt.Patches.Sorting.{sorted_by-perm}
use pytusk.Quilt.Reading.{read_index}
use pytusk.Quilt.Assembly.{
  AssembledQuilt, assemble_quilt, ordered, validated, is_seen, with_metadata, index_size_of,
  from_layouts, filled, packed_size,
}
use pytusk.Quilt.Assembly.Readable.{Readable, with_metadata-IsPackedFrom}
use pytusk.Quilt.Assembly.Assembled.{Placed-Readable}
use pytusk.Quilt.Assembly.Whole.{filled-IsWhole}
use pytusk.Quilt.Assembly.Index.{IsWhole-IsIndex}

pub ordered-perm : (patches : List QuiltPatchInput) → Perm (ordered patches) patches
unfolding ordered
ordered-perm patches = sorted_by-perm _ patches

-- Each identifier is valid, and none is repeated or among those seen before.
abbrev pub AreValid : List Text → List QuiltPatchInput → Type 0
AreValid seen [] = Unit
AreValid seen (patch ∷ patches) =
    (validate_quilt_identifier patch.identifier ≡ ok tt)
    × (is_seen patch.identifier seen ≡ false)
    × AreValid (patch.identifier ∷ seen) patches

pub validated-AreValid :
    (seen : List Text) (patches : List QuiltPatchInput) {u : Unit {0}}
    → validated seen patches ≡ ok u
    → AreValid seen patches
unfolding validated
validated-AreValid seen [] e = tt
validated-AreValid seen (patch ∷ patches) e =
    elim (Result-cases (validate_quilt_identifier patch.identifier)) [
      | inl (raised, r) ↦ cc (rw r at e)
      | inr (u, v) ↦ elim (Bool-cases (is_seen patch.identifier seen)) [
        | inl y ↦ cc (rw (v, y) at e)
        | inr n ↦ (v, n, validated-AreValid (patch.identifier ∷ seen) patches (rw (v, n) at e))
      ]
    ]

pub symbols_pos : (size n_rows : ℕ) → 5 ≤ size * n_rows → 0 < size
symbols_pos zero n_rows h = absurd (omega arith)
symbols_pos (suc size) n_rows h = omega arith

pub columns_fit :
    (sizes : List ℕ) (n_columns size : ℕ)
    → can_blobs_fit sizes n_columns size ≡ true
    → columns sizes size ≤ n_columns
unfolding can_blobs_fit
columns_fit sizes n_columns size e = ground arith

-- The stages of an assembly that returns.
stages :
    {A C : Type 0} (b : Bool) (v : Result (Unit {0})) (m : Result A) (i : Result ℕ)
    (c : ℕ → A → Result ℕ) (f : ℕ → ℕ → A → Result C) {out : C}
    → (raise_if b quilt_assembly
        >> (v >> (m >>= λ packed. i >>= λ n. c n packed >>= λ s. f n s packed)))
      ≡ ok out
    → (packed : A) × (n : ℕ) × (s : ℕ) × (v ≡ ok tt)
      × (m ≡ ok packed)
      × (c n packed ≡ ok s)
      × (f n s packed ≡ ok out)
stages true v m i c f e = cc
stages false (err raised) m i c f e = cc
stages false (ok u) (err raised) i c f e = cc
stages false (ok u) (ok packed) (err raised) c f e = cc
stages false (ok u) (ok packed) (ok n) c f e = elim (Result-cases (c n packed)) [
  | inl (raised, r) ↦ cc (rw r at e)
  | inr (s, r) ↦ (packed, n, s, refl, refl, r, rw r at e)
]

module _ (bcs : Bcs) where
  -- An assembled quilt. Its geometry is that of the shard count. The patches are the input's in the order of
  -- their identifiers, which are valid and distinct. Behind the columns of the index, each has columns
  -- of its own, where a reader finds it, and at column zero the reader finds the serialized index of the
  -- very layouts that are returned.
  pub record IsQuilt (patches : List QuiltPatchInput) (n_shards : ℕ) (out : AssembledQuilt)
      : Type 0 where
    pub symbol_size : ℕ
    pub shards : out.n_shards ≡ n_shards
    pub size :
        length out.content
        ≡ (source_symbol_counts n_shards).0 * (symbol_size * (source_symbol_counts n_shards).1)
    pub once : Perm (ordered patches) patches
    pub valid : AreValid [] (ordered patches)
    pub index_columns : ℕ
    pub few : index_columns ≤ max_num_slivers_for_quilt_index
    pub readable :
        Readable bcs symbol_size
          (source_symbol_counts n_shards).1
          (source_symbol_counts n_shards).0
          out.content
          index_columns
          (ordered patches)
          out.patches
    pub entries : List QuiltPatchV1
    pub indexed : from_layouts bcs out.patches ≡ ok entries
    pub serialized :
        bcs.serialize_index entries
        ≡ ok (
            read_index symbol_size
              (source_symbol_counts n_shards).1
              (source_symbol_counts n_shards).0
              out.content)

  -- For any serialization: if assemble_quilt returns a quilt, then the patches are those of the input, sorted, and
  -- their identifiers are valid and distinct. The index and each patch have whole columns of their own,
  -- one after the other, the index ten at most. At the first column of a patch a reader of the format finds
  -- the patch's serialized identifier and tags and its contents, and at column zero the serialized index
  -- of the returned layouts.
  pub assemble_quilt-IsQuilt :
      (patches : List QuiltPatchInput) (n_shards : ℕ) {out : AssembledQuilt}
      → assemble_quilt bcs patches n_shards ≡ ok out
      → IsQuilt patches n_shards out
  unfolding assemble_quilt
  assemble_quilt-IsQuilt patches n_shards {out} e =
      let n_rows : ℕ = (source_symbol_counts n_shards).0 in
      let n_columns : ℕ = (source_symbol_counts n_shards).1 in
      let sizes = λ (i : ℕ) (packed : List (QuiltPatchInput × Bytes)). i ∷ map packed_size packed in
      let (packed, index_size, symbol_size, v, m, c, f) =
        stages (length patches == 0) (validated [] (ordered patches))
          (with_metadata bcs (ordered patches)) (index_size_of bcs (ordered patches))
          (λ i packed.
            compute_symbol_size (sizes i packed) n_columns n_rows max_num_slivers_for_quilt_index)
          (λ i s packed. filled bcs n_shards n_columns n_rows i s packed) e in
      let rows = (counts_pos n_shards).0 in
      let (even, usable, serves) =
        compute_symbol_size-IsServing (sizes index_size packed) n_columns n_rows
          max_num_slivers_for_quilt_index rows (omega arith) c in
      let symbols = symbols_pos symbol_size n_rows serves.prefix in
      let room =
        columns_fit (sizes index_size packed) n_columns (symbol_size * n_rows) serves.fits in
      let w =
        filled-IsWhole symbol_size n_columns n_rows bcs symbols rows n_shards index_size packed room
          f in
      let index =
        IsWhole-IsIndex bcs symbol_size n_columns n_rows symbols rows n_shards index_size packed out
          room w in
      record {
        symbol_size = symbol_size;
        shards = w.shards;
        size = w.keeps;
        once = ordered-perm patches;
        valid = validated-AreValid [] (ordered patches) v;
        index_columns = div_ceil index_size (symbol_size * n_rows);
        few = w.few;
        readable =
            Placed-Readable bcs symbol_size n_columns n_rows symbols rows out.content
              (ordered patches) packed out.patches (div_ceil index_size (symbol_size * n_rows))
              (with_metadata-IsPackedFrom bcs (ordered patches) m) w.places;
        entries = index.entries;
        indexed = index.indexed;
        serialized = index.serialized;
      }
