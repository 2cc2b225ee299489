-- ===== src/BlobStatus/Report.antt =====
-- fetch_blob_status of pytusk/core/ops/blob_status.py, on a committee that has been fetched. What the task of
-- a node comes to is the parameter `read_status`; the event loop's waits are `loop`, and a wait is
-- cancelled when the deadline of asyncio.wait_for fires. The set `answered` is a list.
pub mod Equality
pub mod Folded
pub mod Counted
pub mod Accounted
use text.Mathlib.Text.{◌==◌ as str_eq}
use pytusk.Prelude.{
  ℕ, ◌+◌, String, Bool, true, false, ◌&&◌, ◌||◌, not, Option, none, some, List, [], ◌∷◌, ◌++◌,
  length, leb, ◌==◌, if◌then◌else◌,
}
use pytusk.Prelude.Int.{ℤ, pos_part}
use pytusk.Prelude.Bytes.{Bytes}
use pytusk.Certification.Quorum.{min_weight_for_quorum, min_weight_for_validity}
use pytusk.Committee.Members.{WalrusCommitteeMember, WalrusCommittee}
use pytusk.CommitteeFanout.{EventLoop, Fanned, fan_out_to_committee}
use pytusk.BlobStatus.{
  EventRef, DeletableCounts, BlobStatus, nonexistent_status, invalid_status, permanent_status,
  deletable_status, unresolved_status, Resolution, Weights, resolve,
}

pub data DissentReason : Type 0 where
  not_stored disagreed timeout error not_checked : DissentReason

pub record NodeRef : Type 0 where
  pub node_id : String
  pub network_address : String
  pub weight : ℕ

pub record NodeDissent : Type 0 where
  pub node : NodeRef
  pub reason : DissentReason

pub record BlobStatusReport : Type 0 where
  pub blob_id : Bytes
  pub status : BlobStatus
  pub resolution : Resolution
  pub committee_epoch : ℤ
  pub confirming : List NodeRef
  pub dissenting : List NodeDissent

abbrev pub node_ref : WalrusCommitteeMember → NodeRef
node_ref member = record {
  node_id = member.node_id;
  network_address = member.network_address;
  weight = length member.shard_indices;
}

-- What the task of a node comes to: a status, no usable answer, an exception, or its cancellation.
pub data StatusAnswer : Type 0 where
  found : BlobStatus → StatusAnswer
  unusable raised was_cancelled : StatusAnswer

-- status == status
abbrev event_eq : EventRef → EventRef → Bool
event_eq a b = str_eq a.tx_digest b.tx_digest && a.event_seq == b.event_seq

abbrev counts_eq : DeletableCounts → DeletableCounts → Bool
counts_eq a b = a.total == b.total && a.certified == b.certified

abbrev epoch_eq : Option ℕ → Option ℕ → Bool
epoch_eq none none = true
epoch_eq none (some n) = false
epoch_eq (some m) none = false
epoch_eq (some m) (some n) = m == n

abbrev flag_eq : Bool → Bool → Bool
flag_eq true b = b
flag_eq false b = not b

unfoldable pub status_eq : BlobStatus → BlobStatus → Bool
status_eq nonexistent_status nonexistent_status = true
status_eq (invalid_status a) (invalid_status b) = event_eq a b
status_eq (permanent_status e c v d i) (permanent_status f b w g j) =
    (e == f && flag_eq c b) && (event_eq v w && (counts_eq d g && epoch_eq i j))
status_eq (deletable_status d i) (deletable_status g j) = counts_eq d g && epoch_eq i j
status_eq unresolved_status unresolved_status = true
status_eq _ _ = false

abbrev pub NodesByStatus : Type 0
NodesByStatus = List (BlobStatus × List NodeRef)

-- weight_by_status[status] = weight_by_status.get(status, 0) + weight
unfoldable pub add_weight : BlobStatus → ℕ → Weights → Weights
add_weight status weight [] = (status, 0 + weight) ∷ []
add_weight status weight ((s, w) ∷ rest) =
    if status_eq s status then (s, w + weight) ∷ rest else (s, w) ∷ add_weight status weight rest

-- nodes_by_status.setdefault(status, []).append(node)
unfoldable pub add_node : BlobStatus → NodeRef → NodesByStatus → NodesByStatus
add_node status node [] = (status, node ∷ []) ∷ []
add_node status node ((s, nodes) ∷ rest) =
    if status_eq s status
    then (s, nodes ++ node ∷ []) ∷ rest
    else (s, nodes) ∷ add_node status node rest

-- The variables that `_fold` and `_cancelled` change.
pub record Opinions : Type 0 where
  pub weight_by_status : Weights
  pub nodes_by_status : NodesByStatus
  pub failures : List NodeDissent
  pub answered : List String

abbrev pub no_opinions : Opinions
no_opinions = record { weight_by_status = []; nodes_by_status = []; failures = []; answered = [] }

abbrev pub fail : WalrusCommitteeMember → DissentReason → Opinions → Opinions
fail member reason o = record o {
  failures = o.failures ++ record { node = node_ref member; reason = reason } ∷ [];
  answered = member.node_id ∷ o.answered;
}

unfoldable pub add_opinion : WalrusCommitteeMember → StatusAnswer → Opinions → Opinions
unfolding add_weight add_node
add_opinion member (found status) o = record {
  weight_by_status = add_weight status (length member.shard_indices) o.weight_by_status;
  nodes_by_status = add_node status (node_ref member) o.nodes_by_status;
  failures = o.failures;
  answered = member.node_id ∷ o.answered;
}
add_opinion member unusable o = fail member error o
add_opinion member raised o = fail member error o
add_opinion member was_cancelled o = fail member not_checked o

-- `_cancelled`
abbrev pub fold_straggler : Opinions → WalrusCommitteeMember → Opinions
fold_straggler o member = fail member timeout o

abbrev pub any_quorum : ℕ → Weights → Bool
any_quorum required [] = false
any_quorum required ((status, weight) ∷ rest) = leb required weight || any_quorum required rest

-- `_quorum_reached`
abbrev pub quorum_reached : ℕ → Opinions → Bool
quorum_reached required o = any_quorum required o.weight_by_status

abbrev pub is_answered : String → List String → Bool
is_answered node_id [] = false
is_answered node_id (i ∷ ids) = str_eq i node_id || is_answered node_id ids

-- The members that were not folded.
unfoldable pub unchecked : List String → List WalrusCommitteeMember → List NodeDissent
unchecked answered [] = []
unchecked answered (m ∷ ms) =
    let rest = unchecked answered ms in
    if is_answered m.node_id answered
    then rest
    else record { node = node_ref m; reason = not_checked } ∷ rest

-- nodes_by_status.get(verdict, ())
unfoldable pub confirming_nodes : BlobStatus → NodesByStatus → List NodeRef
confirming_nodes verdict [] = []
confirming_nodes verdict ((s, nodes) ∷ rest) =
    let later = confirming_nodes verdict rest in if status_eq s verdict then nodes else later

abbrev pub reason_of : BlobStatus → DissentReason
reason_of nonexistent_status = not_stored
reason_of _ = disagreed

abbrev pub dissents : DissentReason → List NodeRef → List NodeDissent
dissents reason [] = []
dissents reason (node ∷ nodes) = record { node = node; reason = reason } ∷ dissents reason nodes

-- The loop over nodes_by_status.
unfoldable pub dissenting_nodes : BlobStatus → NodesByStatus → List NodeDissent
dissenting_nodes verdict [] = []
dissenting_nodes verdict ((s, nodes) ∷ rest) =
    let later = dissenting_nodes verdict rest in
    if status_eq s verdict then later else dissents (reason_of s) nodes ++ later

unfoldable pub report_of : WalrusCommittee → Bytes → Opinions → BlobStatusReport
unfolding unchecked confirming_nodes dissenting_nodes
report_of committee blob_id o =
    let n_shards = pos_part committee.n_shards in
    let (verdict, resolution) =
      resolve o.weight_by_status (min_weight_for_quorum n_shards)
        (min_weight_for_validity n_shards) in
    record {
      blob_id = blob_id;
      status = verdict;
      resolution = resolution;
      committee_epoch = committee.epoch;
      confirming = confirming_nodes verdict o.nodes_by_status;
      dissenting =
          (o.failures ++ unchecked o.answered committee.members)
          ++ dissenting_nodes verdict o.nodes_by_status;
    }

module _ (read_status : WalrusCommitteeMember → Bytes → StatusAnswer) (blob_id : Bytes) where
  -- `_fold`
  abbrev pub fold_status : Opinions → WalrusCommitteeMember → Opinions
  fold_status o member = add_opinion member (read_status member blob_id) o

  -- `none` stands for a fan-out that does not end.
  unfoldable pub fetch_blob_status :
      EventLoop WalrusCommitteeMember → WalrusCommittee → Option BlobStatusReport
  unfolding report_of
  fetch_blob_status loop committee =
      elim (fan_out_to_committee loop fold_status fold_straggler
        (quorum_reached (min_weight_for_quorum (pos_part committee.n_shards))) committee.members
        no_opinions) [ none ↦ none | some out ↦ some (report_of committee blob_id out.acc) ]
