-- ===== src/BlobStatus/Runs.antt =====
-- The answers of a committee of ten shards, and the verdict of pytusk/core/ops/blob_status.py.
use text.Mathlib.Text.{◌==◌ as str_eq}
use pytusk.Prelude.{
  ℕ, ◌+◌, ◌≤◌, ◌≡◌, refl, String, true, none, some, List, [], ◌∷◌, replicate, arith, if◌then◌else◌,
}
use pytusk.Prelude.Int.{pos, pos_part}
use pytusk.Prelude.Bytes.{Bytes}
use pytusk.Committee.Members.{WalrusCommitteeMember, WalrusCommittee}
use pytusk.CommitteeFanout.OneByOne.{one_by_one, one_by_one_laws}
use pytusk.BlobStatus.Report.{BlobStatusReport, StatusAnswer, found, unusable, fetch_blob_status}
use pytusk.BlobStatus.Report.Folded.{times, dissent_times, member_times, weight_of}
use pytusk.BlobStatus.Report.Accounted.{
  required_for, fetch_blob_status-once, fetch_blob_status-reached,
}
use pytusk.BlobStatus.{BlobStatus, nonexistent_status, permanent_status, validity, Weights, resolve}
use pytusk.BlobStatus.Verdict.{Verdict, resolve-Verdict}

abbrev permanent : BlobStatus
permanent =
    permanent_status 5 true (record { tx_digest = "d"; event_seq = 0 })
      (record { total = 0; certified = 0 }) none

abbrev weights : Weights
weights = (nonexistent_status, 4) ∷ (permanent, 5) ∷ []

-- Both have validity weight, and the permanent one is the stronger claim.
resolved : resolve weights 7 4 ≡ (permanent, validity)
unfolding resolve
resolved = refl

resolve-Verdict_example : Verdict weights 7 4 (resolve weights 7 4)
resolve-Verdict_example = resolve-Verdict weights 7 4

abbrev node : String → List ℕ → WalrusCommitteeMember
node node_id shard_indices = record {
  node_id = node_id;
  shard_indices = shard_indices;
  network_address = "";
  public_key = [];
}

abbrev committee : WalrusCommittee
committee = record {
  epoch = pos 7;
  n_shards = pos 4;
  members = node "a" (0 ∷ 1 ∷ []) ∷ node "b" (2 ∷ []) ∷ node "c" (3 ∷ []) ∷ [];
}

-- The node "b" fails.
read_status : WalrusCommitteeMember → Bytes → StatusAnswer
read_status member blob_id = if str_eq member.node_id "b" then unusable else found permanent

fetch_blob_status-once_example :
    (report : BlobStatusReport) × (fetch_blob_status read_status
        (replicate 32 0)
        one_by_one
        committee
      ≡ some report)
    × (times "b" report.confirming + dissent_times "b" report.dissenting
        ≡ member_times "b" committee.members)
fetch_blob_status-once_example =
    fetch_blob_status-once read_status (replicate 32 0) one_by_one committee one_by_one_laws "b"
      (omega arith)

fetch_blob_status-reached_example :
    (report : BlobStatusReport) × (fetch_blob_status read_status
        (replicate 32 0)
        one_by_one
        committee
      ≡ some report)
    × (required_for (pos_part committee.n_shards) report.resolution ≤ weight_of report.confirming)
fetch_blob_status-reached_example =
    fetch_blob_status-reached read_status (replicate 32 0) one_by_one committee one_by_one_laws
