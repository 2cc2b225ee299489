-- ===== src/Redstuff/Sizes/Bounds.antt =====
-- The symbol counts and the symbol size of pytusk/core/encoding/redstuff.py against what they promise.
use native.Mathlib.Nat.{le_refl, le_trans, mul-le-mul_left, mul-le-mul_right, add-le-add_iff_right}
use pytusk.Prelude.{ℕ, zero, suc, ◌+◌, ◌*◌, ◌/◌, ◌%◌, ◌≤◌, ◌<◌, ◌≡◌, refl, ◌↔◌, arith, max}
use pytusk.Prelude.Arith.{div_ceil, le-div_ceil, div_ceil-le}
use pytusk.Redstuff.Sizes.{
  source_symbol_counts, max_n_faulty, symbol_size, max_blob_size, rs2_max_symbol_size,
  encoded_blob_length, metadata_length, align,
}
use pytusk.Prelude.Int.{pos}

-- The number of source symbols of a matrix.
abbrev pub capacity : ℕ → ℕ
capacity n = (source_symbol_counts n).0 * (source_symbol_counts n).1

-- For a committee with shards: primary + f = secondary, secondary + f = n_shards, and f is the
-- largest number with 3 f < n_shards.
pub source_symbol_counts_lem :
    (n : ℕ)
    → 0 < n
    → (f : ℕ) × (max_n_faulty n ≡ pos f)
      × ((source_symbol_counts n).0 + f ≡ (source_symbol_counts n).1)
      × ((source_symbol_counts n).1 + f ≡ n)
      × (3 * f < n)
      × (n ≤ 3 * f + 3)
unfolding source_symbol_counts
source_symbol_counts_lem zero h = absurd (omega arith)
source_symbol_counts_lem (suc m) h =
    (m / 3, ground arith, omega arith, omega arith, omega arith, omega arith)

pub counts_pos : (n : ℕ) → (0 < (source_symbol_counts n).0) × (0 < (source_symbol_counts n).1)
unfolding source_symbol_counts
counts_pos zero = omega arith
counts_pos (suc m) = omega arith

pub capacity_pos : (n : ℕ) → 0 < capacity n
capacity_pos n = let (p, s) = counts_pos n in grind arith

align_even : (raw : ℕ) → (align raw % 2 ≡ 0) × (raw ≤ align raw)
unfolding align
align_even raw = ground arith

align_least : (raw k : ℕ) → raw ≤ k → k % 2 ≡ 0 → align raw ≤ k
unfolding align
align_least raw k h e = ground arith

symbol_size-align : (len n : ℕ) → symbol_size len n ≡ align (div_ceil (max len 1) (capacity n))
unfolding symbol_size
symbol_size-align len n = refl

-- The symbol size is positive and even, and an even positive size k is at least the symbol size
-- exactly when a matrix of symbols of k bytes holds the blob.
pub symbol_size_least :
    (len n k : ℕ)
    → 0 < k
    → k % 2 ≡ 0
    → (0 < symbol_size len n)
      × (symbol_size len n % 2 ≡ 0)
      × ((symbol_size len n ≤ k) ↔ (len ≤ k * capacity n))
symbol_size_least len n k p e =
    let raw : ℕ = div_ceil (max len 1) (capacity n) in
    let holds : max len 1 ≤ raw * capacity n = le-div_ceil _ _ (capacity_pos n) in
    let (even, up) = align_even raw in
    rw symbol_size-align (
      grind arith,
      even,
      (
        (λ h.
            let wide : raw * capacity n ≤ k * capacity n = mul-le-mul_right _ (le_trans up h) in
            omega arith),
        λ h.
            align_least raw k
              (div_ceil-le (max len 1) (capacity n) k (capacity_pos n)
                (grind (arith, capacity_pos n)))
              e,
      ),
    )

symbol_size_holds : (len n : ℕ) → len ≤ symbol_size len n * capacity n
symbol_size_holds len n =
    let (p, e, _) = symbol_size_least len n 2 (omega arith) (omega arith) in
    (symbol_size_least len n (symbol_size len n) p e).2.0 (le_refl _)

-- For every committee, a blob passes the size limit exactly when its symbol size is usable.
pub max_blob_size_iff :
    (len n : ℕ) → (len ≤ max_blob_size n) ↔ (symbol_size len n ≤ rs2_max_symbol_size)
unfolding max_blob_size
max_blob_size_iff len n =
    let (p, e, fits) = symbol_size_least len n rs2_max_symbol_size (omega arith) (omega arith) in
    ((λ h. fits.1 (omega arith)), (λ h. omega (arith, fits.0 h)))

symbol_size_mono : (a b n : ℕ) → a ≤ b → symbol_size a n ≤ symbol_size b n
symbol_size_mono a b n h =
    let (p, e, _) = symbol_size_least b n 2 (omega arith) (omega arith) in
    (symbol_size_least a n (symbol_size b n) p e).2.1 (le_trans h (symbol_size_holds b n))

sliver_space : (p s n size : ℕ) → s ≤ n → size * (p * s) ≤ n * ((p + s) * size)
sliver_space p s n size h =
    let left : size * p * s ≤ size * p * n = grind arith in
    let right : 0 ≤ n * (s * size) = omega arith in omega arith

-- For a committee with shards the encoded length is at least the blob's length and the space of
-- its metadata in every shard, and a longer blob never has a smaller encoded length.
pub encoded_blob_length_bounds :
    (len longer n : ℕ)
    → 0 < n
    → len ≤ longer
    → (len + n * metadata_length n ≤ encoded_blob_length len n)
      × (encoded_blob_length len n ≤ encoded_blob_length longer n)
unfolding encoded_blob_length
encoded_blob_length_bounds len longer n h le =
    let (f, fe, ps, sn, fl, fu) = source_symbol_counts_lem n h in
    let primary : ℕ = (source_symbol_counts n).0 in
    let secondary : ℕ = (source_symbol_counts n).1 in
    let space : symbol_size len n * capacity n ≤ n * ((primary + secondary) * symbol_size len n) =
      sliver_space primary secondary n (symbol_size len n) (omega arith) in
    (
      omega (arith, symbol_size_holds len n),
      mul-le-mul_left n (
          (add-le-add_iff_right (metadata_length n)).1
            (mul-le-mul_left (primary + secondary) (symbol_size_mono len longer n le))),
    )
