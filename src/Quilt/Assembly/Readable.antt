-- ===== src/Quilt/Assembly/Readable.antt =====
-- A reader finds each blob that assemble_quilt (pytusk/core/encoding/quilt.py) has placed.
use pytusk.Prelude.{
  ℕ, ◌+◌, ◌-◌, ◌<◌, ◌≤◌, ◌≡◌, refl, Option, some, List, [], ◌∷◌, length, leb, ltb, Bool, true,
  false, Bool-cases, inl, inr,
}
use pytusk.Prelude.Bytes.{Bytes}
use pytusk.Errors.{
  Result, ok, err, raise_if, ◌>>=◌, ◌>>◌, quilt_assembly, ok-injective, Result-cases,
}
use pytusk.Quilt.Patches.{
  QuiltPatchInput, QuiltPatchLayout, Bcs, tag_bytes_of, max_blob_identifier_bytes_length,
  max_serialized_blob_size, blob_metadata, framed, metadata_size,
}
use pytusk.Quilt.Reading.{read_blob_at}
use pytusk.Quilt.Assembly.{with_metadata}

guarded :
    (b : Bool) (m : Result (Option Bytes)) (f : Option Bytes → Bool)
    (g : Option Bytes → Result Bytes) {out : Bytes}
    → (raise_if b quilt_assembly >> (m >>= λ t. raise_if (f t) quilt_assembly >> g t)) ≡ ok out
    → (t : Option Bytes) × (m ≡ ok t) × (g t ≡ ok out)
guarded true m f g e = cc
guarded false (err raised) f g e = cc
guarded false (ok t) f g e = elim (Bool-cases (f t)) [
  | inl y ↦ cc (rw y at e)
  | inr n ↦ (t, refl, rw n at e)
]

unguarded :
    (a : Result Bytes) (b : Bytes → Bool) (m : Result (Option Bytes))
    (f : Bytes → Option Bytes → Bool) (g : Bytes → Option Bytes → Result Bytes) {out : Bytes}
    → (a >>= λ i.
        raise_if (b i) quilt_assembly >> (m >>= λ t. raise_if (f i t) quilt_assembly >> g i t))
      ≡ ok out
    → (i : Bytes) × (t : Option Bytes) × (a ≡ ok i) × (m ≡ ok t) × (g i t ≡ ok out)
unguarded (err raised) b m f g e = cc
unguarded (ok i) b m f g e = let (t, p, q) = guarded (b i) m (f i) (g i) e in (i, t, refl, p, q)

module _ (bcs : Bcs) where
  -- What the metadata of a blob are made of.
  pub record IsFramed (patch : QuiltPatchInput) (meta : Bytes) : Type 0 where
    pub identifier_bytes : Bytes
    pub tag_bytes : Option Bytes
    pub encodes : bcs.encode_string patch.identifier ≡ ok identifier_bytes
    pub serializes : tag_bytes_of bcs patch.tags ≡ ok tag_bytes
    pub frames :
        framed
          (metadata_size identifier_bytes tag_bytes - 6 + length patch.contents)
          identifier_bytes
          tag_bytes
        ≡ ok meta

  blob_metadata-IsFramed :
      (patch : QuiltPatchInput) {meta : Bytes}
      → blob_metadata bcs patch ≡ ok meta
      → IsFramed patch meta
  unfolding blob_metadata
  blob_metadata-IsFramed patch e =
      let payload_length =
        λ (i : Bytes) (t : Option Bytes). metadata_size i t - 6 + length patch.contents in
      let (i, t, p, q, r) =
        unguarded (bcs.encode_string patch.identifier)
          (λ i. leb max_blob_identifier_bytes_length (length i)) (tag_bytes_of bcs patch.tags)
          (λ i t. ltb max_serialized_blob_size (payload_length i t))
          (λ i t. framed (payload_length i t) i t) e in
      record { identifier_bytes = i; tag_bytes = t; encodes = p; serializes = q; frames = r }

  -- Each patch has columns that follow those of the patch before and lie in the matrix; and a reader of
  -- the matrix from the first of them finds its serialized identifier, its tags and its contents there.
  abbrev pub Readable :
      ℕ → ℕ → ℕ → Bytes → ℕ → List QuiltPatchInput → List QuiltPatchLayout → Type 0
  Readable symbol_size n_columns n_rows quilt column [] [] = Unit
  Readable symbol_size n_columns n_rows quilt column [] (layout ∷ layouts) = ⊥
  Readable symbol_size n_columns n_rows quilt column (patch ∷ patches) [] = ⊥
  Readable symbol_size n_columns n_rows quilt column (patch ∷ patches) (layout ∷ layouts) =
      (layout.identifier ≡ patch.identifier)
      × (layout.tags ≡ patch.tags)
      × (layout.start_index ≡ column)
      × (column < layout.end_index)
      × (layout.end_index ≤ n_columns)
      × (((identifier_bytes : Bytes) × (tag_bytes : Option Bytes) × (bcs.encode_string
              patch.identifier
            ≡ ok identifier_bytes)
          × (tag_bytes_of bcs patch.tags ≡ ok tag_bytes)
          × (read_blob_at symbol_size n_columns n_rows quilt column
              ≡ some (record {
                identifier_bytes = identifier_bytes;
                tag_bytes = tag_bytes;
                contents = patch.contents;
              }))))
      × Readable symbol_size n_columns n_rows quilt layout.end_index patches layouts

  -- The metadata of all patches, in their order.
  abbrev pub IsPackedFrom : List QuiltPatchInput → List (QuiltPatchInput × Bytes) → Type 0
  IsPackedFrom [] [] = Unit
  IsPackedFrom [] (p ∷ packed) = ⊥
  IsPackedFrom (patch ∷ patches) [] = ⊥
  IsPackedFrom (patch ∷ patches) ((patch', meta) ∷ packed) =
      (patch' ≡ patch) × IsFramed patch meta × IsPackedFrom patches packed

  pub with_metadata-IsPackedFrom :
      (patches : List QuiltPatchInput) {packed : List (QuiltPatchInput × Bytes)}
      → with_metadata bcs patches ≡ ok packed
      → IsPackedFrom patches packed
  unfolding with_metadata
  with_metadata-IsPackedFrom [] e = rw (← ok-injective _ _ e) tt
  with_metadata-IsPackedFrom (patch ∷ patches) e = elim (Result-cases (blob_metadata bcs patch)) [
    | inl (raised, no_meta) ↦ cc (rw no_meta at e)
    | inr (meta, made) ↦ elim (Result-cases (with_metadata bcs patches)) [
      | inl (raised, no_more) ↦ cc (rw (made, no_more) at e)
      | inr (packed', more) ↦
          rw (← ok-injective _ _ (rw (made, more) at e))
            (refl, blob_metadata-IsFramed patch made, with_metadata-IsPackedFrom patches more)
    ]
  ]
