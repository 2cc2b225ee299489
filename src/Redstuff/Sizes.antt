-- ===== src/Redstuff/Sizes.antt =====
-- The size arithmetic of pytusk/core/encoding/redstuff.py. Sizes and shard counts are naturals.
pub mod Bounds
use pytusk.Prelude.{ℕ, zero, suc, ◌+◌, ◌-◌, ◌*◌, ◌/◌, ◌%◌, max, ◌==◌, if◌then◌else◌}
use pytusk.Prelude.Arith.{div_ceil}
use pytusk.Prelude.Int.{ℤ, pos, negsuc}

-- a - z for a natural a, where the difference is not negative.
abbrev pub minus : ℕ → ℤ → ℕ
minus a (pos n) = a - n
minus a (negsuc n) = a + suc n

abbrev pub rs2_encoding_type : ℕ
rs2_encoding_type = 1

abbrev pub rs2_max_symbol_size : ℕ
rs2_max_symbol_size = 65534

abbrev pub rs2_required_alignment : ℕ
rs2_required_alignment = 2

abbrev pub digest_len : ℕ
digest_len = 32

abbrev pub blob_id_len : ℕ
blob_id_len = 32

unfoldable pub max_n_faulty : ℕ → ℤ
max_n_faulty zero = negsuc 0
max_n_faulty (suc m) = pos (m / 3)

unfoldable pub min_n_correct : ℕ → ℕ
unfolding max_n_faulty
min_n_correct n_shards = minus n_shards (max_n_faulty n_shards)

-- (primary, secondary)
unfoldable pub source_symbol_counts : ℕ → ℕ × ℕ
unfolding min_n_correct max_n_faulty
source_symbol_counts n_shards =
    let secondary = min_n_correct n_shards in
    let primary = minus secondary (max_n_faulty n_shards) in (primary, secondary)

unfoldable pub max_blob_size : ℕ → ℕ
max_blob_size n_shards =
    let (primary, secondary) = source_symbol_counts n_shards in
    primary * secondary * rs2_max_symbol_size

-- The last lines of symbol_size: round up to a multiple of the alignment.
pub align : ℕ → ℕ
align raw =
    let remainder = raw % rs2_required_alignment in
    if remainder == 0 then raw else raw + (rs2_required_alignment - remainder)

unfoldable pub symbol_size : ℕ → ℕ → ℕ
unfolding align
symbol_size blob_length n_shards =
    let (primary, secondary) = source_symbol_counts n_shards in
    let effective_length = max blob_length 1 in
    let raw = div_ceil effective_length (primary * secondary) in align raw

unfoldable pub metadata_length : ℕ → ℕ
metadata_length n_shards = n_shards * digest_len * 2 + blob_id_len

unfoldable pub encoded_blob_length : ℕ → ℕ → ℕ
encoded_blob_length unencoded_length n_shards =
    let (primary, secondary) = source_symbol_counts n_shards in
    let sliver_symbol_size = symbol_size unencoded_length n_shards in
    let slivers_size = (primary + secondary) * sliver_symbol_size in
    n_shards * (slivers_size + metadata_length n_shards)
