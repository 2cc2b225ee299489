-- ===== src/Quilt/Reading.antt =====
-- How a reader of a quilt finds a packed blob, from the format that the docstring of
-- pytusk/core/encoding/quilt.py describes: a header of a version, a length and a mask, then the
-- identifier, the tags if the mask says so, and the contents. The code has no such reader.
pub mod Framing
pub mod Columns
use pytusk.Prelude.{
  ℕ, zero, suc, ◌+◌, ◌-◌, ◌*◌, ◌%◌, ◌≡◌, Option, none, some, List, [], ◌∷◌, ◌==◌, if◌then◌else◌,
  length, take, drop, get_or,
}
use pytusk.Prelude.Bytes.{Bytes, from_bytes_little}
use pytusk.Quilt.Matrix.Overlay.{byte_at}

-- The bytes of a matrix in the order of its columns.
unfoldable pub read_columns : ℕ → ℕ → ℕ → Bytes → ℕ → ℕ → Bytes
read_columns symbol_size n_columns n_rows quilt zero position = []
read_columns symbol_size n_columns n_rows quilt (suc n) position =
    byte_at symbol_size n_columns n_rows quilt position
    ∷ read_columns symbol_size n_columns n_rows quilt n (position + 1)

-- A packed blob: its serialized identifier and tags, and its contents.
pub record PackedBlob : Type 0 where
  pub identifier_bytes : Bytes
  pub tag_bytes : Option Bytes
  pub contents : Bytes

-- The bytes that a little-endian size of `width` bytes announces.
unfoldable pub sized : ℕ → Bytes → Bytes
unfolding from_bytes_little
sized width bytes = take (from_bytes_little (take width bytes)) (drop width bytes)

unfoldable pub after_sized : ℕ → Bytes → Bytes
unfolding from_bytes_little
after_sized width bytes = drop (from_bytes_little (take width bytes)) (drop width bytes)

unfoldable pub sections : ℕ → Bytes → PackedBlob
unfolding sized after_sized
sections mask payload =
    if mask % 2 == 1
    then record {
      identifier_bytes = sized 2 payload;
      tag_bytes = some (sized 2 (after_sized 2 payload));
      contents = after_sized 2 (after_sized 2 payload);
    }
    else record {
      identifier_bytes = sized 2 payload;
      tag_bytes = none;
      contents = after_sized 2 payload;
    }

-- version(1) + length(u32 LE) + mask(1), then as many bytes as the length says.
unfoldable pub parse_blob : Bytes → Option PackedBlob
unfolding sections from_bytes_little
parse_blob [] = none
parse_blob (version ∷ bytes) =
    if version == 1
    then some (sections (get_or bytes 4 0) (take (from_bytes_little (take 4 bytes)) (drop 5 bytes)))
    else none

-- A reader of the blob at a column does not know where it ends: it is given all bytes from there on.
unfoldable pub read_blob_at : ℕ → ℕ → ℕ → Bytes → ℕ → Option PackedBlob
unfolding parse_blob read_columns
read_blob_at symbol_size n_columns n_rows quilt column = parse_blob (
    read_columns symbol_size n_columns n_rows quilt ((n_columns - column) * (symbol_size * n_rows))
      (column * (symbol_size * n_rows)))

-- The serialized index at column zero: a version, the index's length in four bytes, and the index.
unfoldable pub read_index : ℕ → ℕ → ℕ → Bytes → Bytes
unfolding sized read_columns
read_index symbol_size n_columns n_rows quilt = sized 4 (
    drop 1 (read_columns symbol_size n_columns n_rows quilt (n_columns * (symbol_size * n_rows)) 0))
