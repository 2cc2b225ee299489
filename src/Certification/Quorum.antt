-- ===== src/Certification/Quorum.antt =====
-- The weight thresholds of pytusk/core/certification.py. Weights are shard counts.
pub mod Thresholds
pub mod Signers
use pytusk.Prelude.{ℕ, ◌+◌, ◌*◌, Bool, leb}
use pytusk.Prelude.Arith.{div_ceil}

unfoldable pub is_quorum : ℕ → ℕ → Bool
is_quorum weight n_shards = leb (2 * n_shards + 1) (3 * weight)

unfoldable pub min_weight_for_quorum : ℕ → ℕ
min_weight_for_quorum n_shards = div_ceil (2 * n_shards + 1) 3

unfoldable pub is_above_validity : ℕ → ℕ → Bool
is_above_validity weight n_shards = leb (n_shards + 1) (3 * weight)

unfoldable pub min_weight_for_validity : ℕ → ℕ
min_weight_for_validity n_shards = div_ceil (n_shards + 1) 3
