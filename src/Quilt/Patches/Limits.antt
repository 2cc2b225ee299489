-- ===== src/Quilt/Patches/Limits.antt =====
-- The limits of _blob_metadata in pytusk/core/encoding/quilt.py.
use pytusk.Prelude.{
  ℕ, ◌+◌, ◌-◌, ◌^◌, ◌<◌, ◌≤◌, ◌≡◌, ◌⊎◌, ap, refl, arith, Option, none, some, length, ltb, leb,
  lt→ltb, le→ltb_false, ltb→lt, ltb_false→le, leb→le, Bool-cases, inl, inr,
}
use pytusk.Prelude.Bytes.{Bytes, to_bytes_little}
use pytusk.Errors.{Result, ok, err, quilt_assembly, overflow_error}
use pytusk.Quilt.Patches.{
  QuiltPatchInput, Bcs, tag_bytes_of, blob_metadata, framed, metadata_size, to_bytes,
  max_blob_identifier_bytes_length, max_serialized_blob_size,
}

-- What _blob_metadata does with a serialized identifier, serialized tags and contents of these sizes.
pub data IsOutcome (identifier_size : ℕ) (tags : Option Bytes) (payload_length : ℕ)
    : Result Bytes → Type 0 where
  built :
      (meta : Bytes)
      → identifier_size < 65535
      → payload_length < 2 ^ 32
      → ((tag_bytes : Bytes) → tags ≡ some tag_bytes → length tag_bytes < 2 ^ 16)
      → IsOutcome identifier_size tags payload_length (ok meta)
  refused :
      (65535 ≤ identifier_size) ⊎ (2 ^ 32 ≤ payload_length)
      → IsOutcome identifier_size tags payload_length (err quilt_assembly)
  overflowed :
      (tag_bytes : Bytes)
      → identifier_size < 65535
      → payload_length < 2 ^ 32
      → tags ≡ some tag_bytes
      → 2 ^ 16 ≤ length tag_bytes
      → IsOutcome identifier_size tags payload_length (err overflow_error)

pub to_bytes_fits :
    (width n : ℕ) → n < 256 ^ width → to_bytes width n ≡ ok (to_bytes_little width n)
unfolding to_bytes
to_bytes_fits width n h = rw (lt→ltb n (256 ^ width) h) refl

to_bytes_overflows : (width n : ℕ) → 256 ^ width ≤ n → to_bytes width n ≡ err overflow_error
unfolding to_bytes
to_bytes_overflows width n h = rw (le→ltb_false n (256 ^ width) h) refl

framed-IsOutcome :
    (identifier_bytes : Bytes) (tags : Option Bytes) (payload_length : ℕ)
    → length identifier_bytes < 65535
    → payload_length < 2 ^ 32
    → IsOutcome
        (length identifier_bytes)
        tags
        payload_length
        (framed payload_length identifier_bytes tags)
unfolding framed
framed-IsOutcome identifier_bytes none payload_length short low =
    rw (to_bytes_fits 4 payload_length low, to_bytes_fits 2 (length identifier_bytes) (omega arith))
      (built _ short low (λ tag_bytes e. cc))
framed-IsOutcome identifier_bytes (some tag_bytes) payload_length short low =
    rw (to_bytes_fits 4 payload_length low, to_bytes_fits 2 (length identifier_bytes) (omega arith))
      (elim (Bool-cases (ltb (length tag_bytes) (2 ^ 16))) [
        | inl y ↦ rw (to_bytes_fits 2 (length tag_bytes) (ltb→lt _ _ y)) (
            built _ short low (λ other e.
              let same : tag_bytes ≡ other = cc in omega (arith, ap length same, ltb→lt _ _ y)))
        | inr n ↦
            rw (to_bytes_overflows 2 (length tag_bytes) (ltb_false→le _ _ n))
              (overflowed tag_bytes short low refl (ltb_false→le _ _ n))
      ])

module _ (bcs : Bcs) (patch : QuiltPatchInput) where
  -- For a patch whose identifier and tags serialize: _blob_metadata builds the metadata when the serialized
  -- identifier has fewer than 65535 bytes, the payload fewer than 2 ^ 32 and the serialized tags, if there are
  -- any, fewer than 2 ^ 16. It raises QuiltAssemblyError when the identifier or the payload is too long, and
  -- otherwise, when the tags are too long, an OverflowError.
  pub blob_metadata-IsOutcome :
      (identifier_bytes : Bytes) (tags : Option Bytes)
      → bcs.encode_string patch.identifier ≡ ok identifier_bytes
      → tag_bytes_of bcs patch.tags ≡ ok tags
      → IsOutcome
          (length identifier_bytes)
          tags
          (metadata_size identifier_bytes tags - 6 + length patch.contents)
          (blob_metadata bcs patch)
  unfolding blob_metadata
  blob_metadata-IsOutcome identifier_bytes tags e t =
      let payload_length = metadata_size identifier_bytes tags - 6 + length patch.contents in
      rw (e, t)
        (elim (Bool-cases (leb max_blob_identifier_bytes_length (length identifier_bytes))) [
          | inl y ↦ rw y (refused (inl (leb→le _ _ y)))
          | inr n ↦ rw n (elim (Bool-cases (ltb max_serialized_blob_size payload_length)) [
            | inl y ↦ rw y (refused (inr (ltb→lt _ _ y)))
            | inr m ↦ rw m (
                framed-IsOutcome identifier_bytes tags payload_length (ground arith)
                  (omega (arith, ltb_false→le _ _ m)))
          ])
        ])
