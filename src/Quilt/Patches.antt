-- ===== src/Quilt/Patches.antt =====
-- The blobs that a quilt packs and their inline metadata: the types of pytusk/core/types/quilts.py,
-- and validate_quilt_identifier, sorted_tag_entries and _blob_metadata of
-- pytusk/core/encoding/quilt.py. A text is the list of its code points, a dict the list of its items
-- in their order. The BCS serialization of pysui is a parameter.
pub mod Sorting
pub mod Order
pub mod Limits
use pytusk.Prelude.{
  ℕ, zero, suc, ◌+◌, ◌-◌, ◌^◌, ◌≡◌, Bool, true, false, not, ◌&&◌, ◌||◌, Option, none, some, List,
  [], ◌∷◌, ◌++◌, ltb, leb, ◌==◌, if◌then◌else◌, length, map,
}
use pytusk.Prelude.Bytes.{Bytes, bytes_eq, to_bytes_little}
use pytusk.Errors.{
  Result, ok, err, raise_if, ◌>>=◌, ◌>>◌, quilt_assembly, value_error, overflow_error,
}
use pytusk.Quilt.Patches.Sorting.{sorted_by, code_points_le}

abbrev pub Text : Type 0
Text = List ℕ

abbrev pub Tags : Type 0
Tags = List (Text × Text)

pub record QuiltPatchInput : Type 0 where
  pub identifier : Text
  pub contents : Bytes
  pub tags : Tags

pub record QuiltPatchLayout : Type 0 where
  pub identifier : Text
  pub tags : Tags
  pub start_index : ℕ
  pub end_index : ℕ

pub record QuiltTagEntry : Type 0 where
  pub key : Text
  pub value : Text

pub record QuiltPatchV1 : Type 0 where
  pub end_index : ℕ
  pub identifier : Text
  pub tags : List QuiltTagEntry

-- bcse.String.encode, and the serialize methods of _QuiltTagsBcs and QuiltIndexV1.
pub record Bcs : Type 0 where
  pub encode_string : Text → Result Bytes
  pub serialize_tags : List QuiltTagEntry → Result Bytes
  pub serialize_index : List QuiltPatchV1 → Result Bytes

abbrev pub quilt_version_byte : ℕ
quilt_version_byte = 1

abbrev pub quilt_patch_blob_header_size : ℕ
quilt_patch_blob_header_size = 6

abbrev pub max_serialized_blob_size : ℕ
max_serialized_blob_size = 4294967295

abbrev pub blob_identifier_size_bytes_length : ℕ
blob_identifier_size_bytes_length = 2

abbrev pub tags_size_bytes_length : ℕ
tags_size_bytes_length = 2

abbrev pub max_blob_identifier_bytes_length : ℕ
max_blob_identifier_bytes_length = 65535

abbrev pub has_tags_flag : ℕ
has_tags_flag = 1

-- int.to_bytes(width, "little")
unfoldable pub to_bytes : ℕ → ℕ → Result Bytes
unfolding to_bytes_little
to_bytes width n = if ltb n (256 ^ width) then ok (to_bytes_little width n) else err overflow_error

-- len(text.encode("utf-8")): a surrogate raises a UnicodeEncodeError, which is a ValueError.
unfoldable pub utf8_length : Text → Result ℕ
utf8_length [] = ok 0
utf8_length (c ∷ cs) = do
  raise_if (leb 0xd800 c && ltb c 0xe000) value_error
  rest ← utf8_length cs
  ok ((if ltb c 0x80 then 1 else if ltb c 0x800 then 2 else if ltb c 0x10000 then 3 else 4) + rest)

-- str.isspace of a character
is_space : ℕ → Bool
is_space c =
    leb 0x09 c && leb c 0x0d
    || leb 0x1c c && leb c 0x20
    || c == 0x85
    || c == 0xa0
    || c == 0x1680
    || leb 0x2000 c && leb c 0x200a
    || c == 0x2028
    || c == 0x2029
    || c == 0x202f
    || c == 0x205f
    || c == 0x3000

-- str.rstrip
unfoldable pub rstrip : Text → Text
unfolding is_space
rstrip [] = []
rstrip (c ∷ cs) = let kept = rstrip cs in if length kept == 0 && is_space c then [] else c ∷ kept

-- unicodedata.category(character) == "Cc" for some character
unfoldable pub has_control : Text → Bool
has_control [] = false
has_control (c ∷ cs) = ltb c 0x20 || leb 0x7f c && ltb c 0xa0 || has_control cs

unfoldable pub validate_quilt_identifier : Text → Result (Unit {0})
unfolding utf8_length rstrip has_control
validate_quilt_identifier identifier = do
  raise_if (length identifier == 0) quilt_assembly
  encoded_length ← utf8_length identifier
  raise_if (ltb max_blob_identifier_bytes_length encoded_length) quilt_assembly
  raise_if (not (bytes_eq (rstrip identifier) identifier)) quilt_assembly
  raise_if (has_control identifier) quilt_assembly

-- The header, the identifier and the tags. The check of the payload's length stands between.
unfoldable pub framed : ℕ → Bytes → Option Bytes → Result Bytes
unfolding to_bytes
framed payload_length identifier_bytes none = do
  payload ← to_bytes 4 payload_length
  id_size ← to_bytes 2 (length identifier_bytes)
  ok (quilt_version_byte ∷ (payload ++ 0 ∷ (id_size ++ identifier_bytes)))
framed payload_length identifier_bytes (some tag_bytes) = do
  payload ← to_bytes 4 payload_length
  id_size ← to_bytes 2 (length identifier_bytes)
  tag_size ← to_bytes 2 (length tag_bytes)
  ok (
      quilt_version_byte
      ∷ (payload ++ has_tags_flag ∷ (id_size ++ (identifier_bytes ++ (tag_size ++ tag_bytes)))))

-- metadata_size
abbrev pub metadata_size : Bytes → Option Bytes → ℕ
metadata_size identifier_bytes none =
    quilt_patch_blob_header_size + blob_identifier_size_bytes_length + length identifier_bytes
metadata_size identifier_bytes (some tag_bytes) =
    quilt_patch_blob_header_size
    + blob_identifier_size_bytes_length
    + length identifier_bytes
    + (tags_size_bytes_length + length tag_bytes)

module _ (bcs : Bcs) where
  -- The items of a dict with their sort keys.
  pub keyed : Tags → Result (List (Bytes × QuiltTagEntry))
  keyed [] = ok []
  keyed ((key, value) ∷ tags) = do
    encoded ← bcs.encode_string key
    rest ← keyed tags
    ok ((encoded, record { key = key; value = value }) ∷ rest)

  unfoldable pub sorted_tag_entries : Tags → Result (List QuiltTagEntry)
  unfolding keyed
  sorted_tag_entries tags = do
    items ← keyed tags
    ok (map (λ item. item.1) (sorted_by (λ item other. code_points_le item.0 other.0) items))

  unfoldable pub serialized_tags : Tags → Result Bytes
  unfolding sorted_tag_entries
  serialized_tags tags = do entries ← sorted_tag_entries tags; bcs.serialize_tags entries

  -- _serialize_tags(tags=patch.tags) if patch.tags else None
  unfoldable pub tag_bytes_of : Tags → Result (Option Bytes)
  unfolding serialized_tags
  tag_bytes_of [] = ok none
  tag_bytes_of (tag ∷ tags) = do tag_bytes ← serialized_tags (tag ∷ tags); ok (some tag_bytes)

  unfoldable pub blob_metadata : QuiltPatchInput → Result Bytes
  unfolding tag_bytes_of framed
  blob_metadata patch = do
    identifier_bytes ← bcs.encode_string patch.identifier
    raise_if (leb max_blob_identifier_bytes_length (length identifier_bytes)) quilt_assembly
    tag_bytes ← tag_bytes_of patch.tags
    let payload_length =
        metadata_size identifier_bytes tag_bytes
        - quilt_patch_blob_header_size
        + length patch.contents
    raise_if (ltb max_serialized_blob_size payload_length) quilt_assembly
    framed payload_length identifier_bytes tag_bytes
