-- ===== src/Quilt/Reading/Framing.antt =====
-- The metadata of _blob_metadata (pytusk/core/encoding/quilt.py) are read back.
use mathlib.Core.List.{append_assoc}
use pytusk.Prelude.{
  ℕ, ◌+◌, ◌-◌, ◌^◌, ◌<◌, ◌≡◌, refl, ap, ◌∙◌, sym, arith, Option, none, some, [], ◌∷◌, ◌++◌, length,
  drop, get_or, length-append, le→ltb_false, Bool-cases, inl, inr, ltb, ltb→lt,
}
use pytusk.Prelude.Bytes.{
  Bytes, from_bytes_little, to_bytes_little, from_bytes-to_bytes, length-to_bytes_little,
}
use pytusk.Prelude.Slices.{take-append, drop-append, get_or-append}
use pytusk.Errors.{Result, ok, err, ok-injective, ◌>>=◌}
use pytusk.Quilt.Patches.{to_bytes, framed, metadata_size}
use pytusk.Quilt.Reading.{sized, after_sized, sections, parse_blob}

-- A size that to_bytes writes.
record IsSize (width n : ℕ) (bytes : Bytes) : Type 0 where
  wide : width ≡ length bytes
  reads : from_bytes_little bytes ≡ n

to_bytes-IsSize : (width n : ℕ) {bytes : Bytes} → to_bytes width n ≡ ok bytes → IsSize width n bytes
unfolding to_bytes
to_bytes-IsSize width n {bytes} e = elim (Bool-cases (ltb n (256 ^ width))) [
  | inl y ↦
      let same : to_bytes_little width n ≡ bytes = ok-injective _ _ (rw y at e) in
      record {
        wide = sym (length-to_bytes_little width n) ∙ ap length same;
        reads = ap from_bytes_little (sym same) ∙ from_bytes-to_bytes width n (ltb→lt _ _ y);
      }
  | inr n ↦ cc (rw n at e)
]

module _ (width : ℕ) (size bytes rest : Bytes) (is : IsSize width (length bytes) size) where
  sized-append : sized width (size ++ (bytes ++ rest)) ≡ bytes
  unfolding sized
  sized-append =
      rw
        (
          take-append size (bytes ++ rest) width is.wide,
          drop-append size (bytes ++ rest) width is.wide,
          is.reads,
        )
        (take-append bytes rest (length bytes) refl)

  after_sized-append : after_sized width (size ++ (bytes ++ rest)) ≡ rest
  unfolding after_sized
  after_sized-append =
      rw
        (
          take-append size (bytes ++ rest) width is.wide,
          drop-append size (bytes ++ rest) width is.wide,
          is.reads,
        )
        (drop-append bytes rest (length bytes) refl)

mask_after :
    (payload bytes : Bytes) (mask : ℕ)
    → 4 ≡ length payload
    → get_or (payload ++ mask ∷ bytes) 4 0 ≡ mask
mask_after payload bytes mask wide =
    let e : 4 - length payload ≡ 0 = omega (arith, wide) in
    get_or-append payload (mask ∷ bytes) 4 0
    ∙ rw (le→ltb_false 4 (length payload) (omega (arith, wide)))
        (ap (λ i. get_or (mask ∷ bytes) i 0) e)

bytes_after :
    (payload bytes : Bytes) (mask : ℕ)
    → 4 ≡ length payload
    → drop 5 (payload ++ mask ∷ bytes) ≡ bytes
bytes_after payload bytes mask wide =
    ap (drop 5) (sym (append_assoc payload (mask ∷ []) bytes))
    ∙ drop-append (payload ++ mask ∷ []) bytes 5
        (omega (arith, wide, length-append payload (mask ∷ [])))

-- A payload with its header, whatever follows.
module _ (payload body rest : Bytes) (mask : ℕ) (is : IsSize 4 (length body) payload) where
  parse-header : parse_blob (1 ∷ (payload ++ mask ∷ (body ++ rest))) ≡ some (sections mask body)
  unfolding parse_blob
  parse-header =
      rw
        (
          mask_after payload (body ++ rest) mask is.wide,
          bytes_after payload (body ++ rest) mask is.wide,
          take-append payload (mask ∷ (body ++ rest)) 4 is.wide,
          is.reads,
        )
        (rw (take-append body rest (length body) refl) refl)

-- The payload of a blob without tags, and with them.
module _ (id_size identifier_bytes contents : Bytes)
    (is : IsSize 2 (length identifier_bytes) id_size) where
  sections-bare :
      sections 0 (id_size ++ (identifier_bytes ++ contents))
      ≡ record { identifier_bytes = identifier_bytes; tag_bytes = none; contents = contents }
  unfolding sections
  sections-bare =
      rw
        (
          sized-append 2 id_size identifier_bytes contents is,
          after_sized-append 2 id_size identifier_bytes contents is,
        )
        refl

  sections-tagged :
      (tag_size tag_bytes : Bytes)
      → IsSize 2 (length tag_bytes) tag_size
      → sections 1 (id_size ++ (identifier_bytes ++ (tag_size ++ (tag_bytes ++ contents))))
        ≡ record {
          identifier_bytes = identifier_bytes;
          tag_bytes = some tag_bytes;
          contents = contents;
        }
  unfolding sections
  sections-tagged tag_size tag_bytes is' =
      rw
        (
          sized-append 2 id_size identifier_bytes (tag_size ++ (tag_bytes ++ contents)) is,
          after_sized-append 2 id_size identifier_bytes (tag_size ++ (tag_bytes ++ contents)) is,
          sized-append 2 tag_size tag_bytes contents is',
          after_sized-append 2 tag_size tag_bytes contents is',
        )
        refl

two_sizes :
    (a b : Result Bytes) (f : Bytes → Bytes → Bytes) {m : Bytes}
    → (a >>= λ x. b >>= λ y. ok (f x y)) ≡ ok m
    → (x : Bytes) × (y : Bytes) × (a ≡ ok x) × (b ≡ ok y) × (f x y ≡ m)
two_sizes (err raised) b f e = cc
two_sizes (ok x) (err raised) f e = cc
two_sizes (ok x) (ok y) f e = (x, y, refl, refl, ok-injective _ _ e)

three_sizes :
    (a b c : Result Bytes) (f : Bytes → Bytes → Bytes → Bytes) {m : Bytes}
    → (a >>= λ x. b >>= λ y. c >>= λ z. ok (f x y z)) ≡ ok m
    → (x : Bytes) × (y : Bytes) × (z : Bytes) × (a ≡ ok x) × (b ≡ ok y) × (c ≡ ok z) × (f x y z ≡ m)
three_sizes (err raised) b c f e = cc
three_sizes (ok x) b c f e = let (y, z, p, q, r) = two_sizes b c (f x) e in (x, y, z, refl, p, q, r)

ruleset regroup = (append_assoc)

pub parse-framed :
    (identifier_bytes : Bytes) (tag_bytes : Option Bytes) (contents rest : Bytes) {meta : Bytes}
    → framed
        (metadata_size identifier_bytes tag_bytes - 6 + length contents)
        identifier_bytes
        tag_bytes
      ≡ ok meta
    → parse_blob ((meta ++ contents) ++ rest)
      ≡ some (record {
        identifier_bytes = identifier_bytes;
        tag_bytes = tag_bytes;
        contents = contents;
      })
unfolding framed
parse-framed identifier_bytes none contents rest {meta} e =
    let (payload, id_size, e1, e2, r2) =
      two_sizes (to_bytes 4 (metadata_size identifier_bytes none - 6 + length contents))
        (to_bytes 2 (length identifier_bytes))
        (λ payload id_size. 1 ∷ (payload ++ 0 ∷ (id_size ++ identifier_bytes))) e in
    let size2 = to_bytes-IsSize 2 (length identifier_bytes) e2 in
    let body = id_size ++ (identifier_bytes ++ contents) in
    let n : metadata_size identifier_bytes none - 6 + length contents ≡ length body = omega (
      arith,
      length-append id_size (identifier_bytes ++ contents),
      length-append identifier_bytes contents,
      size2.wide,
    ) in
    let size4 = to_bytes-IsSize 4 (length body) (rw n at e1) in
    let regrouped : ((1 ∷ (payload ++ 0 ∷ (id_size ++ identifier_bytes))) ++ contents) ++ rest
        ≡ 1 ∷ (payload ++ 0 ∷ (body ++ rest)) =
      simp regroup in
    ap (λ m. parse_blob ((m ++ contents) ++ rest)) (sym r2)
    ∙ (ap parse_blob regrouped
        ∙ parse-header payload body rest 0 size4
        ∙ ap some (sections-bare id_size identifier_bytes contents size2))
parse-framed identifier_bytes (some tag_bytes) contents rest {meta} e =
    let (payload, id_size, tag_size, e1, e2, e3, r3) =
      three_sizes
        (to_bytes 4 (metadata_size identifier_bytes (some tag_bytes) - 6 + length contents))
        (to_bytes 2 (length identifier_bytes)) (to_bytes 2 (length tag_bytes))
        (λ payload id_size tag_size.
          1 ∷ (payload ++ 1 ∷ (id_size ++ (identifier_bytes ++ (tag_size ++ tag_bytes)))))
        e in
    let size2 = to_bytes-IsSize 2 (length identifier_bytes) e2 in
    let size3 = to_bytes-IsSize 2 (length tag_bytes) e3 in
    let tagged = tag_size ++ (tag_bytes ++ contents) in
    let body = id_size ++ (identifier_bytes ++ tagged) in
    let n : metadata_size identifier_bytes (some tag_bytes) - 6 + length contents ≡ length body =
      omega (
        arith,
        length-append id_size (identifier_bytes ++ tagged),
        length-append identifier_bytes tagged,
        length-append tag_size (tag_bytes ++ contents),
        length-append tag_bytes contents,
        size2.wide,
        size3.wide,
      ) in
    let size4 = to_bytes-IsSize 4 (length body) (rw n at e1) in
    let regrouped : ((1
              ∷ (payload ++ 1 ∷ (id_size ++ (identifier_bytes ++ (tag_size ++ tag_bytes)))))
            ++ contents)
          ++ rest
        ≡ 1 ∷ (payload ++ 1 ∷ (body ++ rest)) =
      simp regroup in
    ap (λ m. parse_blob ((m ++ contents) ++ rest)) (sym r3)
    ∙ (ap parse_blob regrouped
        ∙ parse-header payload body rest 1 size4
        ∙ ap some
            (sections-tagged id_size identifier_bytes contents size2 tag_size tag_bytes size3))

pub framed_pos :
    (payload_length : ℕ) (identifier_bytes : Bytes) (tag_bytes : Option Bytes) {meta : Bytes}
    → framed payload_length identifier_bytes tag_bytes ≡ ok meta
    → 0 < length meta
unfolding framed
framed_pos n identifier_bytes none e =
    let (payload, id_size, e1, e2, r) =
      two_sizes (to_bytes 4 n) (to_bytes 2 (length identifier_bytes))
        (λ payload id_size. 1 ∷ (payload ++ 0 ∷ (id_size ++ identifier_bytes))) e in
    rw (← r) (omega arith)
framed_pos n identifier_bytes (some tag_bytes) e =
    let (payload, id_size, tag_size, e1, e2, e3, r) =
      three_sizes (to_bytes 4 n) (to_bytes 2 (length identifier_bytes))
        (to_bytes 2 (length tag_bytes))
        (λ payload id_size tag_size.
          1 ∷ (payload ++ 1 ∷ (id_size ++ (identifier_bytes ++ (tag_size ++ tag_bytes)))))
        e in
    rw (← r) (omega arith)

-- The index with its length is read back, whatever follows.
pub sized-framed :
    (index_bytes size rest : Bytes)
    → to_bytes 4 (length index_bytes) ≡ ok size
    → sized 4 (drop 1 ((1 ∷ (size ++ index_bytes)) ++ rest)) ≡ index_bytes
sized-framed index_bytes size rest e =
    ap (sized 4) (append_assoc size index_bytes rest)
    ∙ sized-append 4 size index_bytes rest (to_bytes-IsSize 4 (length index_bytes) e)
