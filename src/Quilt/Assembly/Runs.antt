-- ===== src/Quilt/Assembly/Runs.antt =====
-- A quilt of two patches, and the theorems of pytusk/core/encoding/quilt.py about its assembly there.
use mathlib.Core.List.Perm
use pytusk.Prelude.{
  ap, length-append, ◌*◌, ◌≡◌, refl, arith, List, [], ◌∷◌, ◌++◌, length, map, replicate, some,
}
use pytusk.Prelude.Bytes.{Bytes}
use pytusk.Errors.{ok, ok-injective}
use pytusk.Quilt.Packing.{compute_symbol_size}
use pytusk.Quilt.Matrix.{write_blob_to_quilt}
use pytusk.Quilt.Matrix.Filled.{IsFilled, write_blob_to_quilt-IsFilled}
use pytusk.Quilt.Patches.{
  Text, QuiltPatchInput, QuiltPatchV1, QuiltTagEntry, Bcs, blob_metadata, tag_bytes_of,
}
use pytusk.Quilt.Patches.Limits.{IsOutcome, blob_metadata-IsOutcome}
use pytusk.Quilt.Patches.Sorting.{sorted_by, code_points_le}
use pytusk.Redstuff.Sizes.{source_symbol_counts}
use pytusk.Quilt.Assembly.{
  AssembledQuilt, assemble_quilt, ordered, validated, with_metadata, index_size_of, packed_size,
}
use pytusk.Quilt.Assembly.Unordered.{assemble_quilt-Perm}
use pytusk.Quilt.Assembly.Total.{DifferInEnds, IsFixedWidth, assemble_quilt-total}
use pytusk.Quilt.Assembly.RoundTrip.{IsQuilt, assemble_quilt-IsQuilt}

abbrev sized_text : Text → Bytes
sized_text text = length text ∷ text

abbrev tag_pairs : List QuiltTagEntry → Bytes
tag_pairs [] = []
tag_pairs (entry ∷ entries) = sized_text entry.key ++ (sized_text entry.value ++ tag_pairs entries)

abbrev entry_list : List QuiltPatchV1 → Bytes
entry_list [] = []
entry_list (entry ∷ entries) =
    entry.end_index
    ∷ 0
    ∷ (sized_text entry.identifier
        ++ (length entry.tags ∷ (tag_pairs entry.tags ++ entry_list entries)))

-- BCS for short ASCII texts and few entries.
abbrev short_bcs : Bcs
short_bcs = record {
  encode_string = λ text. ok (sized_text text);
  serialize_tags = λ entries. ok (length entries ∷ tag_pairs entries);
  serialize_index = λ entries. ok (length entries ∷ entry_list entries);
}

abbrev patch_b : QuiltPatchInput
patch_b = record { identifier = b'b' ∷ []; contents = 1 ∷ 2 ∷ 3 ∷ []; tags = [] }

abbrev patch_a : QuiltPatchInput
patch_a = record {
  identifier = b'a' ∷ [];
  contents = replicate 20 9;
  tags = (b'k' ∷ b'k' ∷ [], b'v' ∷ []) ∷ (b'z' ∷ [], b'w' ∷ []) ∷ [];
}

abbrev quilt : AssembledQuilt
quilt = record {
  content =
      1 ∷ 20 ∷ 0 ∷ 0 ∷ 0 ∷ 2 ∷ 4 ∷ 0 ∷ 0 ∷ 0 ∷ 0 ∷ 0 ∷ 0 ∷ 0 ∷ 0 ∷ 0 ∷ 1 ∷ 36 ∷ 0 ∷ 0 ∷ 0 ∷ 1 ∷ 2
      ∷ 0 ∷ 9 ∷ 9 ∷ 9 ∷ 9 ∷ 9 ∷ 9 ∷ 9 ∷ 9 ∷ 1 ∷ 7 ∷ 0 ∷ 0 ∷ 0 ∷ 0 ∷ 2 ∷ 0 ∷ 1 ∷ 97 ∷ 2 ∷ 1 ∷ 122 ∷ 1
      ∷ 119 ∷ 2 ∷ 0 ∷ 0 ∷ 0 ∷ 0 ∷ 0 ∷ 0 ∷ 0 ∷ 0 ∷ 1 ∷ 97 ∷ 10 ∷ 0 ∷ 2 ∷ 1 ∷ 122 ∷ 1 ∷ 9 ∷ 9 ∷ 9 ∷ 9
      ∷ 9 ∷ 9 ∷ 9 ∷ 9 ∷ 1 ∷ 98 ∷ 1 ∷ 2 ∷ 3 ∷ 0 ∷ 0 ∷ 0 ∷ 107 ∷ 107 ∷ 1 ∷ 118 ∷ 5 ∷ 0 ∷ 1 ∷ 98 ∷ 0
      ∷ 0 ∷ 0 ∷ 0 ∷ 0 ∷ 0 ∷ 0 ∷ 0 ∷ 119 ∷ 2 ∷ 107 ∷ 107 ∷ 1 ∷ 118 ∷ 9 ∷ 9 ∷ 9 ∷ 9 ∷ 0 ∷ 0 ∷ 0 ∷ 0
      ∷ 0 ∷ 0 ∷ 0 ∷ 0 ∷ 0 ∷ 0 ∷ 0 ∷ 0 ∷ 0 ∷ 0 ∷ [];
  patches =
      record {
        identifier = patch_a.identifier;
        tags = patch_a.tags;
        start_index = 2;
        end_index = 4;
      }
      ∷ record { identifier = patch_b.identifier; tags = []; start_index = 4; end_index = 5 }
      ∷ [];
  n_shards = 7;
}

assembled : assemble_quilt short_bcs (patch_b ∷ patch_a ∷ []) 7 ≡ ok quilt
unfolding assemble_quilt sorted_by code_points_le source_symbol_counts
assembled = refl

assemble_quilt-IsQuilt_example : IsQuilt short_bcs (patch_b ∷ patch_a ∷ []) 7 quilt
assemble_quilt-IsQuilt_example =
    assemble_quilt-IsQuilt short_bcs (patch_b ∷ patch_a ∷ []) 7 assembled

-- Three rows and four columns of symbols of two bytes.
write_blob_to_quilt-IsFilled_example :
    IsFilled 2 4 3
      (omega arith)
      (omega arith)
      (replicate 24 0)
      1
      (7 ∷ 8 ∷ 9 ∷ 1 ∷ 2 ∷ 3 ∷ 4 ∷ 5 ∷ [])
      (write_blob_to_quilt
        (replicate 24 0)
        (1 ∷ 2 ∷ 3 ∷ 4 ∷ 5 ∷ [])
        (2 * 4)
        (2 * 3)
        2
        1
        (some (7 ∷ 8 ∷ 9 ∷ [])))
write_blob_to_quilt-IsFilled_example =
    write_blob_to_quilt-IsFilled 2 4 3 (omega arith) (omega arith) (replicate 24 0)
      (1 ∷ 2 ∷ 3 ∷ 4 ∷ 5 ∷ []) 1 (some (7 ∷ 8 ∷ 9 ∷ [])) refl (omega arith)

assemble_quilt-Perm_example :
    assemble_quilt short_bcs (patch_b ∷ patch_a ∷ []) 7
    ≡ assemble_quilt short_bcs (patch_a ∷ patch_b ∷ []) 7
assemble_quilt-Perm_example =
    assemble_quilt-Perm short_bcs (patch_b ∷ patch_a ∷ []) (patch_a ∷ patch_b ∷ []) 7
      (Perm.swap patch_a patch_b [])

blob_metadata-IsOutcome_example :
    IsOutcome 2
      (some (2 ∷ 1 ∷ b'z' ∷ 1 ∷ b'w' ∷ 2 ∷ b'k' ∷ b'k' ∷ 1 ∷ b'v' ∷ []))
      36
      (blob_metadata short_bcs patch_a)
unfolding tag_bytes_of sorted_by code_points_le
blob_metadata-IsOutcome_example =
    blob_metadata-IsOutcome short_bcs patch_a (1 ∷ b'a' ∷ [])
      (some (2 ∷ 1 ∷ b'z' ∷ 1 ∷ b'w' ∷ 2 ∷ b'k' ∷ b'k' ∷ 1 ∷ b'v' ∷ [])) refl refl

entry_list-length :
    (entries others : List QuiltPatchV1)
    → DifferInEnds entries others
    → (length (entry_list others) ≡ length (entry_list entries)) × (length others ≡ length entries)
entry_list-length [] [] d = (refl, refl)
entry_list-length [] (e ∷ others) d = absurd d
entry_list-length (e ∷ entries) [] d = absurd d
entry_list-length (e ∷ entries) (f ∷ others) (name, tags, low, d) =
    let (h, k) = entry_list-length entries others d in
    let a = λ (x : QuiltPatchV1) (rest : Bytes).
      length-append (sized_text x.identifier) (length x.tags ∷ (tag_pairs x.tags ++ rest)) in
    let b = λ (x : QuiltPatchV1) (rest : Bytes). length-append (tag_pairs x.tags) rest in
    (
      omega (
        arith,
        a e (entry_list entries),
        a f (entry_list others),
        b e (entry_list entries),
        b f (entry_list others),
        h,
        ap length name,
        ap (λ (t : List QuiltTagEntry). length (tag_pairs t)) tags,
      ),
      omega (arith, k),
    )

short_bcs-IsFixedWidth : IsFixedWidth short_bcs
short_bcs-IsFixedWidth entries others serialized d e =
    let same = ok-injective _ _ e in
    (
      length others ∷ entry_list others,
      refl,
      omega (arith, entry_list-length entries others d, ap length same),
    )

abbrev meta_a : Bytes
meta_a =
    1 ∷ 36 ∷ 0 ∷ 0 ∷ 0 ∷ 1 ∷ 2 ∷ 0 ∷ 1 ∷ b'a' ∷ 10 ∷ 0 ∷ 2 ∷ 1 ∷ b'z' ∷ 1 ∷ b'w' ∷ 2 ∷ b'k' ∷ b'k'
    ∷ 1 ∷ b'v' ∷ []

abbrev meta_b : Bytes
meta_b = 1 ∷ 7 ∷ 0 ∷ 0 ∷ 0 ∷ 0 ∷ 2 ∷ 0 ∷ 1 ∷ b'b' ∷ []

validated_run : validated [] (ordered (patch_b ∷ patch_a ∷ [])) ≡ ok tt
unfolding validated ordered sorted_by code_points_le
validated_run = refl

metadata_run :
    with_metadata short_bcs (ordered (patch_b ∷ patch_a ∷ []))
    ≡ ok ((patch_a, meta_a) ∷ (patch_b, meta_b) ∷ [])
unfolding with_metadata ordered sorted_by code_points_le
metadata_run = refl

index_run : index_size_of short_bcs (ordered (patch_b ∷ patch_a ∷ [])) ≡ ok 25
unfolding index_size_of ordered sorted_by code_points_le
index_run = refl

sizing_run :
    compute_symbol_size
      (25 ∷ map packed_size ((patch_a, meta_a) ∷ (patch_b, meta_b) ∷ []))
      (source_symbol_counts 7).1
      (source_symbol_counts 7).0
      10
    ≡ ok 8
unfolding compute_symbol_size source_symbol_counts
sizing_run = refl

assemble_quilt-total_example :
    (out : AssembledQuilt) × (assemble_quilt short_bcs (patch_b ∷ patch_a ∷ []) 7 ≡ ok out)
assemble_quilt-total_example =
    assemble_quilt-total short_bcs (patch_b ∷ patch_a ∷ []) 7 short_bcs-IsFixedWidth (omega arith)
      (omega arith) (omega arith) validated_run metadata_run index_run sizing_run
