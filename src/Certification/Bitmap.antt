-- ===== src/Certification/Bitmap.antt =====
-- pack_signers_bitmap and unpack_signers_bitmap of pytusk/core/certification.py. Positions and the
-- committee size are naturals, so their tests below zero cannot fail. `1 << (p % 8)` is 2 ^ (p % 8).
pub mod RoundTrip
use Prim.Native.Nat.{bit_and, bit_or}
use pytusk.Prelude.{
  ℕ, zero, suc, ◌+◌, ◌/◌, ◌%◌, ◌^◌, Bool, not, List, [], ◌∷◌, ◌++◌, leb, ltb, ◌==◌, length, get_or,
  set, replicate, if◌then◌else◌,
}
use pytusk.Prelude.Bytes.{Bytes}
use pytusk.Errors.{Result, ok, err, value_error, raise_if, ◌>>=◌, ◌>>◌}

-- bitmap[position // 8] |= 1 << (position % 8)
pub set_bit : Bytes → ℕ → Bytes
set_bit bitmap position =
    set bitmap (position / 8) (bit_or (get_or bitmap (position / 8) 0) (2 ^ (position % 8)))

pub pack_loop : Bytes → List ℕ → ℕ → Result Bytes
pack_loop bitmap [] committee_size = ok bitmap
pack_loop bitmap (position ∷ rest) committee_size = do
  raise_if (leb committee_size position) value_error
  pack_loop (set_bit bitmap position) rest committee_size

unfoldable pub pack_signers_bitmap : List ℕ → ℕ → Result Bytes
unfolding pack_loop set_bit
pack_signers_bitmap signer_positions committee_size =
    pack_loop (replicate ((committee_size + 7) / 8) 0) signer_positions committee_size

-- bitmap[position // 8] & (1 << (position % 8)), as a truth value
pub test_bit : Bytes → ℕ → Bool
test_bit bitmap position = not (bit_and (get_or bitmap (position / 8) 0) (2 ^ (position % 8)) == 0)

-- The positions of range(start, start + count) whose bit is set.
pub unpack_range : Bytes → ℕ → ℕ → List ℕ
unpack_range bitmap start zero = []
unpack_range bitmap start (suc count) =
    let rest = unpack_range bitmap (start + 1) count in
    if test_bit bitmap start then start ∷ rest else rest

unfoldable pub unpack_signers_bitmap : Bytes → ℕ → Result (List ℕ)
unfolding unpack_range test_bit
unpack_signers_bitmap bitmap committee_size = do
  raise_if (ltb (length bitmap) ((committee_size + 7) / 8)) value_error
  ok (unpack_range bitmap 0 committee_size)
