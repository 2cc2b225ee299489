-- ===== src/Certification/Quorum/Thresholds.antt =====
-- The thresholds of pytusk/core/certification.py against each other and against the fault bound of
-- pytusk/core/encoding/redstuff.py.
use pytusk.Prelude.{ℕ, zero, suc, ◌≤◌, ◌<◌, ◌≡◌, ◌↔◌, true, arith}
use pytusk.Redstuff.Sizes.{max_n_faulty, min_n_correct}
use pytusk.Prelude.Int.{pos}
use pytusk.Certification.Quorum.{
  is_quorum, min_weight_for_quorum, is_above_validity, min_weight_for_validity,
}

-- A weight is a quorum exactly from the minimum weight on, which no committee's shard count is
-- below; the same for validity, whose minimum is at least one.
pub thresholds_exact :
    (weight n : ℕ)
    → ((is_quorum weight n ≡ true) ↔ (min_weight_for_quorum n ≤ weight))
      × ((is_above_validity weight n ≡ true) ↔ (min_weight_for_validity n ≤ weight))
unfolding is_quorum min_weight_for_quorum is_above_validity min_weight_for_validity
thresholds_exact weight n = (ground arith, ground arith)

-- For a committee with shards the quorum weight is min_n_correct, and the validity weight lies
-- above max_n_faulty and at most at the quorum weight, which all the shards together reach.
pub thresholds-faulty :
    (n f : ℕ)
    → max_n_faulty n ≡ pos f
    → (min_weight_for_quorum n ≡ min_n_correct n)
      × (f < min_weight_for_validity n)
      × (min_weight_for_validity n ≤ min_weight_for_quorum n)
      × (min_weight_for_quorum n ≤ n)
unfolding min_weight_for_quorum min_n_correct max_n_faulty min_weight_for_validity
thresholds-faulty zero f e = absurd (cc)
thresholds-faulty (suc m) f e = (omega arith, ground arith, omega arith, omega arith)
