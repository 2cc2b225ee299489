-- ===== src/Quilt/Assembly.antt =====
-- assemble_quilt and quilt_patch_id of pytusk/core/encoding/quilt.py: the matrix that the patches of a
-- quilt fill, and their columns.
pub mod Placed
pub mod Readable
pub mod Assembled
pub mod Whole
pub mod Index
pub mod RoundTrip
pub mod Unordered
pub mod Total
mod Runs
use pytusk.Prelude.{
  ℕ, zero, suc, ◌+◌, ◌*◌, ◌≡◌, Bool, true, false, not, ◌||◌, Option, none, some, List, [], ◌∷◌,
  ◌++◌, ltb, ◌==◌, if◌then◌else◌, length, map, replicate,
}
use pytusk.Prelude.Arith.{div_ceil}
use pytusk.Prelude.Bytes.{Bytes, bytes_eq}
use pytusk.Errors.{Result, ok, err, raise_if, ◌>>=◌, ◌>>◌, quilt_assembly}
use pytusk.Redstuff.Sizes.{source_symbol_counts}
use pytusk.Quilt.Packing.{
  compute_symbol_size, quilt_index_prefix_size, max_num_slivers_for_quilt_index,
}
use pytusk.Quilt.Matrix.{write_blob_to_quilt}
use pytusk.Quilt.Patches.{
  Text, QuiltPatchInput, QuiltPatchLayout, QuiltPatchV1, QuiltTagEntry, Bcs, quilt_version_byte,
  to_bytes, validate_quilt_identifier, sorted_tag_entries, blob_metadata,
}
use pytusk.Quilt.Patches.Sorting.{sorted_by, code_points_le}

pub record AssembledQuilt : Type 0 where
  pub content : Bytes
  pub patches : List QuiltPatchLayout
  pub n_shards : ℕ

-- sorted(patches, key=lambda patch: patch.identifier)
unfoldable pub ordered : List QuiltPatchInput → List QuiltPatchInput
ordered = sorted_by (λ patch other. code_points_le patch.identifier other.identifier)

-- identifier in seen
unfoldable pub is_seen : Text → List Text → Bool
is_seen identifier [] = false
is_seen identifier (other ∷ seen) = bytes_eq other identifier || is_seen identifier seen

-- `for patch in ordered:` validates each identifier and refuses a repeated one.
unfoldable pub validated : List Text → List QuiltPatchInput → Result (Unit {0})
unfolding is_seen validate_quilt_identifier
validated seen [] = ok tt
validated seen (patch ∷ patches) = do
  validate_quilt_identifier patch.identifier
  raise_if (is_seen patch.identifier seen) quilt_assembly
  validated (patch.identifier ∷ seen) patches

-- The layout of a packed blob: its first column, and one past its last.
abbrev pub layout_of : QuiltPatchInput → ℕ → ℕ → QuiltPatchLayout
layout_of patch start end = record {
  identifier = patch.identifier;
  tags = patch.tags;
  start_index = start;
  end_index = end;
}

-- `for patch, meta in zip(ordered, metadata):` writes each blob behind the one before.
unfoldable pub place_patches :
    ℕ → ℕ → ℕ → Bytes → ℕ → List (QuiltPatchInput × Bytes) → Result (Bytes × List QuiltPatchLayout)
unfolding write_blob_to_quilt
place_patches row_size column_size symbol_size quilt current_column [] = ok (quilt, [])
place_patches row_size column_size symbol_size quilt current_column ((patch, meta) ∷ packed) = do
  (quilt', consumed) ←
      write_blob_to_quilt quilt patch.contents row_size column_size symbol_size current_column
        (some meta)
  (quilt'', layouts) ←
      place_patches row_size column_size symbol_size quilt' (current_column + consumed) packed
  ok (quilt'', layout_of patch current_column (current_column + consumed) ∷ layouts)

abbrev pub packed_size : QuiltPatchInput × Bytes → ℕ
packed_size (patch, meta) = length meta + length patch.contents

module _ (bcs : Bcs) where
  -- zip(ordered, metadata)
  unfoldable pub with_metadata : List QuiltPatchInput → Result (List (QuiltPatchInput × Bytes))
  unfolding blob_metadata
  with_metadata [] = ok []
  with_metadata (patch ∷ patches) = do
    meta ← blob_metadata bcs patch
    packed ← with_metadata patches
    ok ((patch, meta) ∷ packed)

  -- The entries of the placeholder index.
  unfoldable pub placeholders : List QuiltPatchInput → Result (List QuiltPatchV1)
  unfolding sorted_tag_entries
  placeholders [] = ok []
  placeholders (patch ∷ patches) = do
    tags ← sorted_tag_entries bcs patch.tags
    rest ← placeholders patches
    ok (record { end_index = 0; identifier = patch.identifier; tags = tags } ∷ rest)

  -- [QuiltPatchV1.from_layout(layout=layout) for layout in layouts]
  unfoldable pub from_layouts : List QuiltPatchLayout → Result (List QuiltPatchV1)
  unfolding sorted_tag_entries
  from_layouts [] = ok []
  from_layouts (layout ∷ layouts) = do
    tags ← sorted_tag_entries bcs layout.tags
    rest ← from_layouts layouts
    ok (record { end_index = layout.end_index; identifier = layout.identifier; tags = tags } ∷ rest)

  -- QUILT_INDEX_PREFIX_SIZE + len(placeholder.serialize())
  unfoldable pub index_size_of : List QuiltPatchInput → Result ℕ
  unfolding placeholders
  index_size_of patches = do
    entries ← placeholders patches
    serialized ← bcs.serialize_index entries
    ok (quilt_index_prefix_size + length serialized)

  -- index_blob
  unfoldable pub index_blob_of : List QuiltPatchLayout → Result Bytes
  unfolding from_layouts to_bytes
  index_blob_of layouts = do
    entries ← from_layouts layouts
    index_bytes ← bcs.serialize_index entries
    size ← to_bytes 4 (length index_bytes)
    ok (quilt_version_byte ∷ (size ++ index_bytes))

  -- From `row_size = …` on: the matrix is filled, the blobs first and the index last.
  unfoldable pub filled : ℕ → ℕ → ℕ → ℕ → ℕ → List (QuiltPatchInput × Bytes) → Result AssembledQuilt
  unfolding place_patches index_blob_of write_blob_to_quilt
  filled n_shards n_columns n_rows index_size symbol_size packed = do
    let row_size = symbol_size * n_columns
    let column_size = symbol_size * n_rows
    let index_columns = div_ceil index_size column_size
    raise_if (ltb max_num_slivers_for_quilt_index index_columns) quilt_assembly
    (quilt, layouts) ←
        place_patches row_size column_size symbol_size (replicate (row_size * n_rows) 0)
          index_columns packed
    index_blob ← index_blob_of layouts
    raise_if (not (length index_blob == index_size)) quilt_assembly
    (quilt', consumed) ←
        write_blob_to_quilt quilt index_blob row_size column_size symbol_size 0 none
    ok (record { content = quilt'; patches = layouts; n_shards = n_shards })

  unfoldable pub assemble_quilt : List QuiltPatchInput → ℕ → Result AssembledQuilt
  unfolding ordered validated with_metadata index_size_of compute_symbol_size filled
  assemble_quilt patches n_shards = do
    raise_if (length patches == 0) quilt_assembly
    let (n_rows, n_columns) = source_symbol_counts n_shards
    validated [] (ordered patches)
    packed ← with_metadata (ordered patches)
    index_size ← index_size_of (ordered patches)
    symbol_size ←
        compute_symbol_size (index_size ∷ map packed_size packed) n_columns n_rows
          max_num_slivers_for_quilt_index
    filled n_shards n_columns n_rows index_size symbol_size packed
