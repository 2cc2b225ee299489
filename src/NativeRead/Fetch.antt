-- ===== src/NativeRead/Fetch.antt =====
-- The sliver fan-out of pytusk/core/native_read/fetch.py. The client is a parameter: `read_sliver` is the
-- content of the response to a ReadSliver, if there is one. A request that fails or raises gives none, and
-- so does the rotation of a shard if it raises. The semaphores and the cap on responses only delay or
-- limit requests.
pub mod Fold
pub mod Outcome
pub mod Excluded
use mathlib.Core.List.{foldl}
use text.Mathlib.Text.{◌==◌ as str_eq}
use pytusk.Prelude.{
  ℕ, zero, ◌+◌, String, Bool, true, false, Option, none, some, List, [], ◌∷◌, ◌++◌, map, length,
  ltb, leb, ◌||◌, if◌then◌else◌,
}
use pytusk.Prelude.Int.{pos_part}
use pytusk.Prelude.Bytes.{Bytes, bytes_eq}
use pytusk.Errors.{Result, ok, err, cancelled, sliver_fetch, raise_if, ◌>>=◌, ◌>>◌}
use pytusk.Redstuff.Rotation.{shard_index_to_pair_index}
use pytusk.Redstuff.Codec.{Axis}
use pytusk.Committee.Members.{WalrusCommitteeMember, WalrusCommittee}
use pytusk.CommitteeFanout.{EventLoop, Fanned, fan_out_to_committee}

abbrev pub contains_bytes : Bytes → List Bytes → Bool
contains_bytes s [] = false
contains_bytes s (x ∷ xs) = bytes_eq x s || contains_bytes s xs

abbrev pub contains_str : String → List String → Bool
contains_str s [] = false
contains_str s (x ∷ xs) = str_eq x s || contains_str s xs

-- What the fan-out has collected; the set of seen slivers is a list.
pub record Gathered : Type 0 where
  pub collected : List (Bytes × String)
  pub seen : List Bytes
  pub nodes_answered : ℕ

abbrev pub sliver_of : Bytes × String → Bytes
sliver_of (sliver, node_id) = sliver

-- One round of the loop over a node's slivers.
pub fold_sliver : String → Gathered → Bytes → Gathered
fold_sliver node_id g sliver = if contains_bytes sliver g.seen then g else record {
  collected = g.collected ++ ((sliver, node_id) ∷ []);
  seen = sliver ∷ g.seen;
  nodes_answered = g.nodes_answered;
}

abbrev pub answered : Gathered → Gathered
answered g = record {
  collected = g.collected;
  seen = g.seen;
  nodes_answered = g.nodes_answered + 1;
}

-- The members that are asked: those with shards that are not excluded.
unfoldable pub asked : List String → List WalrusCommitteeMember → List WalrusCommitteeMember
asked exclude_node_ids [] = []
asked exclude_node_ids (m ∷ ms) =
    let rest = asked exclude_node_ids ms in
    elim (m.shard_indices) [
      | [] ↦ rest
      | q ∷ qs ↦ if contains_str m.node_id exclude_node_ids then rest else m ∷ rest
    ]

-- `_cancelled`
abbrev pub fold_cancelled : Gathered → WalrusCommitteeMember → Gathered
fold_cancelled g member = g

abbrev pub enough : ℕ → Gathered → Bool
enough threshold g = leb threshold (length g.collected)

abbrev pub nothing : Gathered
nothing = record { collected = []; seen = []; nodes_answered = 0 }

unfoldable pub settled : ℕ → Fanned WalrusCommitteeMember Gathered → Result (List (Bytes × String))
settled threshold out = do
  raise_if out.interrupted cancelled
  raise_if (ltb (length out.acc.collected) threshold) sliver_fetch
  ok (out.acc.collected)

module _ (read_sliver : WalrusCommitteeMember → Bytes → ℕ → Axis → Option Bytes) (blob_id : Bytes)
    (axis : Axis) where
  one : ℕ → WalrusCommitteeMember → ℕ → Option Bytes
  one n_shards member shard_index = elim (shard_index_to_pair_index shard_index blob_id n_shards) [
    | err e ↦ none
    | ok pair_index ↦ read_sliver member blob_id pair_index axis
  ]

  outcomes : ℕ → WalrusCommitteeMember → List ℕ → List Bytes
  unfolding one
  outcomes n_shards member [] = []
  outcomes n_shards member (q ∷ qs) =
      let rest = outcomes n_shards member qs in
      elim (one n_shards member q) [ none ↦ rest | some content ↦ content ∷ rest ]

  unfoldable pub fetch_node_slivers : ℕ → WalrusCommitteeMember → List Bytes
  unfolding outcomes
  fetch_node_slivers n_shards member = outcomes n_shards member member.shard_indices

  -- `_fold`, on the slivers of one node.
  unfoldable pub fold_node : ℕ → Gathered → WalrusCommitteeMember → Gathered
  unfolding fold_sliver
  fold_node n_shards g member = elim (fetch_node_slivers n_shards member) [
    | [] ↦ g
    | sliver ∷ slivers ↦ foldl (fold_sliver member.node_id) (answered g) (sliver ∷ slivers)
  ]

  module _ (loop : EventLoop WalrusCommitteeMember) where
    -- `none` stands for a fan-out that does not end.
    unfoldable pub fetch_slivers_attributed :
        WalrusCommittee → ℕ → List String → Option (Result (List (Bytes × String)))
    unfolding settled
    fetch_slivers_attributed committee threshold exclude_node_ids =
        elim (fan_out_to_committee loop (fold_node (pos_part committee.n_shards)) fold_cancelled
          (enough threshold) (asked exclude_node_ids committee.members) nothing) [
            | none ↦ none
            | some out ↦ some (settled threshold out)
          ]

    unfoldable pub fetch_slivers : WalrusCommittee → ℕ → Option (Result (List Bytes))
    unfolding fetch_slivers_attributed
    fetch_slivers committee threshold = elim (fetch_slivers_attributed committee threshold []) [
      | none ↦ none
      | some (err e) ↦ some (err e)
      | some (ok attributed) ↦ some (ok (map sliver_of attributed))
    ]
