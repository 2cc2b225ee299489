-- ===== src/Quilt/Packing/Least.antt =====
-- compute_symbol_size (pytusk/core/encoding/quilt.py) returns the least size that serves.
use native.Mathlib.Nat.{mul-le-mul_right, le_trans}
use pytusk.Prelude.{
  ℕ, ◌-◌, ◌*◌, ◌%◌, ◌≤◌, ◌<◌, ◌≡◌, refl, Bool, true, false, not, ltb, arith, if◌then◌else◌,
  Bool-cases, inl, inr, List, length, ◌==◌, le→ltb_false, ltb→lt, ltb_false→le,
}
use pytusk.Prelude.Arith.{div_ceil, le-div_ceil, div_ceil-le}
use pytusk.Errors.{ok, err, quilt_assembly, raise_if, ◌>>◌}
use pytusk.Redstuff.Sizes.{rs2_max_symbol_size}
use pytusk.Quilt.Packing.{
  can_blobs_fit, sum, max_symbol, min_symbol, fits_at, narrow, searched, compute_symbol_size,
  head_or, quilt_index_prefix_size,
}
use pytusk.Quilt.Packing.Search.{IsFound, narrow-IsFound}
use pytusk.Quilt.Packing.Columns.{fits_at_mono, fits_at-sum, max_symbol-fits_at}

module _ (sizes : List ℕ) (n_columns n_rows max_index_columns : ℕ) where
  -- A symbol size at which every blob fits into whole columns, the index, which is the first blob,
  -- into its share of them, and the prefix of the index into one.
  pub record IsServing (k : ℕ) : Type 0 where
    pub fits : can_blobs_fit sizes n_columns (k * n_rows) ≡ true
    pub index : head_or 0 sizes ≤ k * (n_rows * max_index_columns)
    pub prefix : quilt_index_prefix_size ≤ k * n_rows

  module _ (rows : 0 < n_rows) (index_room : 0 < max_index_columns) where
    abbrev least : ℕ
    least = min_symbol sizes n_columns n_rows max_index_columns

    index_divisor : 0 < n_rows * max_index_columns
    index_divisor = grind arith

    serving-least : (k : ℕ) → 0 < n_columns → IsServing k → least ≤ k
    unfolding min_symbol fits_at
    serving-least k cols s =
        let a =
          div_ceil-le (sum sizes) (n_columns * n_rows) k (grind arith)
            (fits_at-sum sizes n_columns n_rows k s.fits) in
        let b =
          div_ceil-le (head_or 0 sizes) (n_rows * max_index_columns) k index_divisor s.index in
        let c = div_ceil-le quilt_index_prefix_size n_rows k rows s.prefix in omega arith

    above-least :
        (k : ℕ)
        → least ≤ k
        → (head_or 0 sizes ≤ k * (n_rows * max_index_columns))
          × (quilt_index_prefix_size ≤ k * n_rows)
    unfolding min_symbol
    above-least k le =
        let i : ℕ = div_ceil (head_or 0 sizes) (n_rows * max_index_columns) in
        let p : ℕ = div_ceil quilt_index_prefix_size n_rows in
        let ik : i ≤ k = omega arith in
        let pk : p ≤ k = omega arith in
        (
          le_trans (le-div_ceil (head_or 0 sizes) (n_rows * max_index_columns) index_divisor)
              (mul-le-mul_right (n_rows * max_index_columns) ik),
          le_trans (le-div_ceil quilt_index_prefix_size n_rows rows) (mul-le-mul_right n_rows pk),
        )

    abbrev found : ℕ
    found =
        narrow (fits_at sizes n_columns n_rows) (max_symbol sizes n_columns n_rows - least) least
          (max_symbol sizes n_columns n_rows)

    found-IsFound :
        IsFound (fits_at sizes n_columns n_rows) least (max_symbol sizes n_columns n_rows) found
    found-IsFound =
        narrow-IsFound (fits_at sizes n_columns n_rows) (fits_at_mono sizes n_columns n_rows) _
          least _ (omega arith)

    aligned : ℕ
    aligned = div_ceil found 2 * 2

    aligned_lem : (found ≤ aligned) × (aligned % 2 ≡ 0)
    unfolding aligned
    aligned_lem = omega arith

    aligned-le : (k : ℕ) → k % 2 ≡ 0 → found ≤ k → aligned ≤ k
    unfolding aligned
    aligned-le k e le = omega arith

    searched-aligned : searched sizes n_columns n_rows max_index_columns ≡ aligned
    unfolding searched aligned
    searched-aligned = refl

    found_pos : 0 < found
    found_pos = let (_, p) = above-least found (found-IsFound.above) in grind arith

    module _ (some_blobs : 0 < length sizes) (room : length sizes ≤ n_columns) where
      found_fits : fits_at sizes n_columns n_rows found ≡ true
      found_fits = elim (found-IsFound.passes) [
        | inl y ↦ y
        | inr top ↦
            max_symbol-fits_at sizes n_columns n_rows found rows some_blobs room found_pos
              (omega arith)
      ]

      aligned_fits : fits_at sizes n_columns n_rows aligned ≡ true
      aligned_fits = fits_at_mono sizes n_columns n_rows found aligned (aligned_lem.0) found_fits

      aligned-IsServing : IsServing aligned
      unfolding fits_at
      aligned-IsServing =
          let (i, p) = above-least aligned (le_trans (found-IsFound.above) (aligned_lem.0)) in
          record { fits = aligned_fits; index = i; prefix = p }

      serving-found : (k : ℕ) → IsServing k → found ≤ k
      unfolding fits_at
      serving-found k s = elim (Bool-cases (ltb k found)) [
        | inl y ↦
            cc (found-IsFound.least k (serving-least k (omega arith) s) (ltb→lt k found y), s.fits)
        | inr n ↦ ground arith
      ]

      computed :
          compute_symbol_size sizes n_columns n_rows max_index_columns
          ≡ (if ltb rs2_max_symbol_size aligned then err quilt_assembly else ok aligned)
      unfolding compute_symbol_size
      computed = rw searched-aligned (rw aligned_fits (ground arith))

fits_searched :
    (a b c d : Bool) (s : ℕ) {out : ℕ}
    → (raise_if a quilt_assembly
        >> (raise_if b quilt_assembly
            >> (raise_if c quilt_assembly >> (raise_if d quilt_assembly >> ok s))))
      ≡ ok out
    → (a ≡ false) × (b ≡ false) × (d ≡ false) × (s ≡ out)
fits_searched a b c d s e = ground arith

module _ (sizes : List ℕ) (n_columns n_rows max_index_columns : ℕ) where
  -- For a matrix with rows and a share for the index: what compute_symbol_size returns is an even,
  -- usable symbol size at which the blobs fit into whole columns, the index into its share of them,
  -- and the index prefix into one.
  pub compute_symbol_size-IsServing :
      {size : ℕ}
      → 0 < n_rows
      → 0 < max_index_columns
      → compute_symbol_size sizes n_columns n_rows max_index_columns ≡ ok size
      → (size % 2 ≡ 0)
        × (size ≤ rs2_max_symbol_size)
        × IsServing sizes n_columns n_rows max_index_columns size
  unfolding compute_symbol_size
  compute_symbol_size-IsServing {size} rows index_room e =
      let s = aligned sizes n_columns n_rows max_index_columns rows index_room in
      let (some_blobs, room, usable, same) =
        fits_searched (length sizes == 0) (ltb n_columns (length sizes))
          (not (fits_at sizes n_columns n_rows (searched sizes n_columns n_rows max_index_columns)))
          (ltb rs2_max_symbol_size (searched sizes n_columns n_rows max_index_columns))
          (searched sizes n_columns n_rows max_index_columns) e in
      let same' : s ≡ size =
        rw (← searched-aligned sizes n_columns n_rows max_index_columns rows index_room) same in
      rw (← same') (
        (aligned_lem sizes n_columns n_rows max_index_columns rows index_room).1,
        rw (← searched-aligned sizes n_columns n_rows max_index_columns rows index_room)
            (ltb_false→le _ _ usable),
        aligned-IsServing sizes n_columns n_rows max_index_columns rows index_room (ground arith)
            (ground arith),
      )

  -- For a matrix with rows and a share for the index, at least one blob, and no more blobs than columns: whenever
  -- some even, usable symbol size serves, compute_symbol_size succeeds, with the least one that does: the
  -- size that it returns is even and usable, the blobs fit into whole columns there, the index into its share of
  -- them and the index prefix into one, and it is no greater than the given size.
  pub compute_symbol_size_least :
      (k : ℕ)
      → 0 < n_rows
      → 0 < max_index_columns
      → 0 < length sizes
      → length sizes ≤ n_columns
      → k % 2 ≡ 0
      → k ≤ rs2_max_symbol_size
      → IsServing sizes n_columns n_rows max_index_columns k
      → (size : ℕ) × (compute_symbol_size sizes n_columns n_rows max_index_columns ≡ ok size)
        × (size % 2 ≡ 0)
        × (size ≤ rs2_max_symbol_size)
        × IsServing sizes n_columns n_rows max_index_columns size
        × (size ≤ k)
  compute_symbol_size_least k rows index_room some_blobs room even usable serves =
      let le = aligned-le sizes n_columns n_rows max_index_columns rows index_room k even (
        serving-found sizes n_columns n_rows max_index_columns rows index_room some_blobs room k
          serves) in
      let returned : compute_symbol_size sizes n_columns n_rows max_index_columns
          ≡ ok (aligned sizes n_columns n_rows max_index_columns rows index_room) =
        rw (computed sizes n_columns n_rows max_index_columns rows index_room some_blobs room)
          (rw (le→ltb_false rs2_max_symbol_size _ (le_trans le usable)) refl) in
      let (even', usable', serving) = compute_symbol_size-IsServing rows index_room returned in
      (
        aligned sizes n_columns n_rows max_index_columns rows index_room,
        returned,
        even',
        usable',
        serving,
        le,
      )
