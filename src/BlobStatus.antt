-- ===== src/BlobStatus.antt =====
-- pytusk/core/types/blob_status.py and the verdict of pytusk/core/ops/blob_status.py. The dict of weights is
-- an association list in the order of insertion.
pub mod Verdict
pub mod Report
mod Runs
use pytusk.Prelude.{
  ℕ, String, Bool, true, false, Option, none, some, List, [], ◌∷◌, leb, if◌then◌else◌,
}

pub record EventRef : Type 0 where
  pub tx_digest : String
  pub event_seq : ℕ

pub record DeletableCounts : Type 0 where
  pub total : ℕ
  pub certified : ℕ

pub data BlobStatus : Type 0 where
  nonexistent_status : BlobStatus
  invalid_status : EventRef → BlobStatus
  -- end_epoch, is_certified, status_event, deletable_counts, initial_certified_epoch
  permanent_status : ℕ → Bool → EventRef → DeletableCounts → Option ℕ → BlobStatus
  -- deletable_counts, initial_certified_epoch
  deletable_status : DeletableCounts → Option ℕ → BlobStatus
  unresolved_status : BlobStatus

pub data Resolution : Type 0 where
  quorum validity unresolved : Resolution

abbrev pub certainty_rank : BlobStatus → ℕ
certainty_rank (invalid_status event) = 0
certainty_rank (permanent_status epoch certified event counts initial) = 1
certainty_rank (deletable_status counts initial) = 2
certainty_rank nonexistent_status = 3
certainty_rank unresolved_status = 4

abbrev pub Weights : Type 0
Weights = List (BlobStatus × ℕ)

-- The first status with quorum weight.
pub with_quorum : ℕ → Weights → Option BlobStatus
with_quorum required [] = none
with_quorum required ((status, weight) ∷ rest) =
    let later = with_quorum required rest in if leb required weight then some status else later

pub candidates : ℕ → Weights → List BlobStatus
candidates required [] = []
candidates required ((status, weight) ∷ rest) =
    let later = candidates required rest in if leb required weight then status ∷ later else later

-- candidates.sort(key=rank), which is stable.
pub place_by_rank : BlobStatus → List BlobStatus → List BlobStatus
place_by_rank s [] = s ∷ []
place_by_rank s (t ∷ ts) =
    let later = place_by_rank s ts in
    if leb (certainty_rank s) (certainty_rank t) then s ∷ t ∷ ts else t ∷ later

pub sorted_by_rank : List BlobStatus → List BlobStatus
unfolding place_by_rank
sorted_by_rank [] = []
sorted_by_rank (s ∷ ss) = place_by_rank s (sorted_by_rank ss)

unfoldable pub resolve : Weights → ℕ → ℕ → BlobStatus × Resolution
unfolding with_quorum candidates sorted_by_rank
resolve weight_by_status required_quorum required_validity =
    elim (with_quorum required_quorum weight_by_status) [
      | some status ↦ (status, quorum)
      | none ↦ elim (sorted_by_rank (candidates required_validity weight_by_status)) [
        | [] ↦ (unresolved_status, unresolved)
        | status ∷ rest ↦ (status, validity)
      ]
    ]
