-- ===== src/Certification/Bitmap/RoundTrip.antt =====
-- Packing signer positions and unpacking them again (pytusk/core/certification.py).
use pytusk.Prelude.{
  ℕ, zero, suc, ◌+◌, ◌/◌, ◌%◌, ◌≤◌, ◌<◌, ◌≡◌, refl, ap, sym, ◌∙◌, Bool, false, ◌||◌, List, [], ◌∷◌,
  leb, ◌==◌, length, get_or, replicate, if◌then◌else◌, arith, length-set, get_or-set_self,
  get_or-set_ne, length-replicate, get_or-replicate, All, Bool-cases, inl, inr, ==_iff,
  lt→leb_false, le→leb, ◌++◌, contains, IsAscending, subst,
}
use pytusk.Prelude.Bits.{bit, bit-bit_or, bit_or-IsByte, bit-zero}
use pytusk.Prelude.Bytes.{Bytes}
use pytusk.Errors.{ok, err, value_error, raise_if, ◌>>=◌, >>=-eq-ok, raise_if-eq-ok}
use pytusk.Certification.Bitmap.{
  set_bit, pack_loop, pack_signers_bitmap, test_bit, unpack_range, unpack_signers_bitmap,
}

-- The signer positions among start, start + 1, ..., start + count - 1, in this order.
pub signers_in : List ℕ → ℕ → ℕ → List ℕ
signers_in ps start zero = []
signers_in ps start (suc count) =
    let rest = signers_in ps (start + 1) count in if contains start ps then start ∷ rest else rest

record IsBitmap (bitmap : Bytes) (size : ℕ) : Type 0 where
  long : length bitmap ≡ (size + 7) / 8
  bytes : (i : ℕ) → get_or bitmap i 0 < 256

module _ (bitmap : Bytes) (size p : ℕ) (fits : p < size) (b : IsBitmap bitmap size) where
  in_bitmap : p / 8 < length bitmap
  in_bitmap = omega (arith, b.long)

  set_bit-bytes : (i : ℕ) → get_or (set_bit bitmap p) i 0 < 256
  unfolding set_bit
  set_bit-bytes i = elim (Bool-cases (p / 8 == i)) [
    | inl y ↦ rw (← (==_iff (p / 8) i).0 y) (
        rw (get_or-set_self bitmap (p / 8) _ 0 in_bitmap)
          (bit_or-IsByte _ (p % 8) (b.bytes (p / 8)) (omega arith)))
    | inr n ↦ rw (get_or-set_ne bitmap (p / 8) i _ 0 (ground arith)) (b.bytes i)
  ]

  set_bit-IsBitmap : IsBitmap (set_bit bitmap p) size
  set_bit-IsBitmap = record {
    long = unfold set_bit in rw (length-set) b.long;
    bytes = set_bit-bytes;
  }

  -- The bit of a position is its own: setting it leaves every other position's bit.
  test_bit-set_bit : (q : ℕ) → test_bit (set_bit bitmap p) q ≡ (p == q || test_bit bitmap q)
  unfolding set_bit test_bit
  test_bit-set_bit q = elim (Bool-cases (p / 8 == q / 8)) [
    | inl y ↦
        let e : p / 8 ≡ q / 8 = (==_iff (p / 8) (q / 8)).0 y in
        rw (← e) (
          rw (get_or-set_self bitmap (p / 8) _ 0 in_bitmap) (
            bit-bit_or (get_or bitmap (p / 8) 0) (p % 8) (q % 8) (b.bytes (p / 8)) (omega arith)
              (omega arith)
            ∙ ap (λ (t : Bool). t || bit (get_or bitmap (p / 8) 0) (q % 8)) (ground arith)))
    | inr n ↦ rw (get_or-set_ne bitmap (p / 8) (q / 8) _ 0 (ground arith)) (ground arith)
  ]

-- What pack_loop returns, bit by bit.
record Packs (bitmap : Bytes) (ps : List ℕ) (size : ℕ) (out : Bytes) : Type 0 where
  returns : pack_loop bitmap ps size ≡ ok out
  is_bitmap : IsBitmap out size
  bits : (q : ℕ) → test_bit out q ≡ (contains q ps || test_bit bitmap q)

pack_loop-Packs :
    (ps : List ℕ) (bitmap : Bytes) (size : ℕ)
    → All (λ p. p < size) ps
    → IsBitmap bitmap size
    → (out : Bytes) × Packs bitmap ps size out
unfolding pack_loop
pack_loop-Packs [] bitmap size h b =
    (bitmap, record { returns = refl; is_bitmap = b; bits = λ q. refl })
pack_loop-Packs (p ∷ ps) bitmap size (hp, hps) b =
    let (out, packs) =
      pack_loop-Packs ps (set_bit bitmap p) size hps (set_bit-IsBitmap bitmap size p hp b) in
    (
      out,
      record {
        returns = rw (lt→leb_false size p hp) packs.returns;
        is_bitmap = packs.is_bitmap;
        bits = λ q. ground (arith, packs.bits q, test_bit-set_bit bitmap size p hp b q);
      },
    )

empty-IsBitmap : (size : ℕ) → IsBitmap (replicate ((size + 7) / 8) 0) size
empty-IsBitmap size = record {
  long = length-replicate _ 0;
  bytes = λ i. rw get_or-replicate (omega arith);
}

empty_bits : (size q : ℕ) → test_bit (replicate ((size + 7) / 8) 0) q ≡ false
unfolding test_bit
empty_bits size q = rw get_or-replicate (bit-zero (q % 8) (omega arith))

unpack_range-signers_in :
    (out : Bytes) (ps : List ℕ) (start count : ℕ)
    → ((q : ℕ) → test_bit out q ≡ contains q ps)
    → unpack_range out start count ≡ signers_in ps start count
unfolding unpack_range signers_in
unpack_range-signers_in out ps start zero h = refl
unpack_range-signers_in out ps start (suc count) h =
    rw (h start, unpack_range-signers_in out ps (start + 1) count h)

-- If every position lies in the committee, packing succeeds with ceil(committee_size / 8) bytes,
-- and unpacking them gives the signer positions of the committee in ascending order, each once.
pub unpack-pack :
    (ps : List ℕ) (size : ℕ)
    → All (λ p. p < size) ps
    → (bitmap : Bytes) × (pack_signers_bitmap ps size ≡ ok bitmap)
      × (length bitmap ≡ (size + 7) / 8)
      × (unpack_signers_bitmap bitmap size ≡ ok (signers_in ps 0 size))
unfolding pack_signers_bitmap unpack_signers_bitmap
unpack-pack ps size h =
    let (out, packs) =
      pack_loop-Packs ps (replicate ((size + 7) / 8) 0) size h (empty-IsBitmap size) in
    let bits : (q : ℕ) → test_bit out q ≡ contains q ps =
      λ q. ground (arith, packs.bits q, empty_bits size q) in
    (
      out,
      packs.returns,
      packs.is_bitmap.long,
      rw (packs.is_bitmap.long) (ground (arith, unpack_range-signers_in out ps 0 size bits)),
    )

not_signer : (ps : List ℕ) (q low : ℕ) → q < low → IsAscending low ps → contains q ps ≡ false
not_signer [] q low h a = refl
not_signer (p ∷ ps) q low h (le, a) = ground (arith, not_signer ps q (p + 1) (omega arith) a)

skip_signer :
    (p : ℕ) (ps : List ℕ) (start count : ℕ)
    → p < start
    → signers_in (p ∷ ps) start count ≡ signers_in ps start count
unfolding signers_in
skip_signer p ps start zero h = refl
skip_signer p ps start (suc count) h =
    rw (skip_signer p ps (start + 1) count (omega arith)) (ground arith)

signers_in-ascending :
    (ps : List ℕ) (start count end : ℕ)
    → start + count ≡ end
    → IsAscending start ps
    → All (λ p. p < end) ps
    → signers_in ps start count ≡ ps
unfolding signers_in
signers_in-ascending [] start zero end e a h = refl
signers_in-ascending (p ∷ ps) start zero end e (le, a) (hp, hps) = absurd (omega arith)
signers_in-ascending [] start (suc count) end e a h =
    signers_in-ascending [] (start + 1) count end (omega arith) tt tt
signers_in-ascending (p ∷ ps) start (suc count) end e (le, a) (hp, hps) =
    elim (Bool-cases (p == start)) [
      | inl y ↦
          let at : p ≡ start = (==_iff p start).0 y in
          let rest = skip_signer p ps (start + 1) count (omega arith) in
          let later =
            signers_in-ascending ps (start + 1) count end (omega arith)
              (subst (λ k. IsAscending (k + 1) ps) at a) hps in
          rw y (rw rest (rw later (ap (λ k. k ∷ ps) (sym at))))
      | inr n ↦
          let later =
            signers_in-ascending (p ∷ ps) (start + 1) count end (omega arith) (ground arith, a)
              (hp, hps) in
          rw (n, not_signer ps start (p + 1) (omega arith) a) later
    ]

-- Ascending signer positions of the committee come back from their bitmap as they were.
pub unpack-pack_ascending :
    (ps : List ℕ) (size : ℕ)
    → IsAscending 0 ps
    → All (λ p. p < size) ps
    → (pack_signers_bitmap ps size >>= λ bitmap. unpack_signers_bitmap bitmap size) ≡ ok ps
unpack-pack_ascending ps size a h =
    let (bitmap, packed, _, unpacked) = unpack-pack ps size h in
    rw packed (unpacked ∙ ap ok (signers_in-ascending ps 0 size size (omega arith) a h))

-- A position outside the committee is refused, wherever it stands among the positions.
pub pack-outside :
    (before after : List ℕ) (p size : ℕ)
    → size ≤ p
    → pack_signers_bitmap (before ++ p ∷ after) size ≡ err value_error
unfolding pack_signers_bitmap
pack-outside before after p size h = loop before (replicate ((size + 7) / 8) 0)
  where
    loop :
        (qs : List ℕ) (bitmap : Bytes) → pack_loop bitmap (qs ++ p ∷ after) size ≡ err value_error
    loop [] bitmap = rw (le→leb size p h)
    loop (q ∷ qs) bitmap = ground (arith, loop qs (set_bit bitmap q))

in_range : (p size : ℕ) → leb size p ≡ false → p < size
in_range p size h = ground arith

-- A packed bitmap has only positions of the committee.
pub pack-in_range :
    (ps : List ℕ) (size : ℕ) {bitmap : Bytes}
    → pack_signers_bitmap ps size ≡ ok bitmap
    → All (λ p. p < size) ps
unfolding pack_signers_bitmap
pack-in_range ps size e = loop ps (replicate ((size + 7) / 8) 0) e
  where
    loop :
        (qs : List ℕ) (start : Bytes) {out : Bytes}
        → pack_loop start qs size ≡ ok out
        → All (λ p. p < size) qs
    loop [] start e = tt
    loop (q ∷ qs) start e =
        let (u, ok_q, rest) = >>=-eq-ok (raise_if (leb size q) value_error) _ e in
        (
          in_range q size (raise_if-eq-ok (leb size q) value_error ok_q),
          loop qs (set_bit start q) rest,
        )

pack_loop-within :
    (ps : List ℕ) (bitmap out : Bytes) (size : ℕ)
    → pack_loop bitmap ps size ≡ ok out
    → All (λ p. p < size) ps
unfolding pack_loop
pack_loop-within [] bitmap out size e = tt
pack_loop-within (p ∷ ps) bitmap out size e = elim (Bool-cases (leb size p)) [
  | inl y ↦ cc (rw y at e)
  | inr n ↦ (ground arith, pack_loop-within ps (set_bit bitmap p) out size (rw n at e))
]

-- Only positions of the committee are packed.
pub pack-within :
    (ps : List ℕ) (bitmap : Bytes) (size : ℕ)
    → pack_signers_bitmap ps size ≡ ok bitmap
    → All (λ p. p < size) ps
unfolding pack_signers_bitmap
pack-within ps bitmap size = pack_loop-within ps (replicate ((size + 7) / 8) 0) bitmap size
