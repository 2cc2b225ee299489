-- ===== src/Committee/Members.antt =====
-- WalrusCommitteeMember and WalrusCommittee of pytusk/core/chain/committee.py. Shard indices are naturals,
-- since build_committee admits no others; -1 stands in the table for a shard without a member.
use text.Mathlib.Text.{◌==◌ as str_eq}
use pytusk.Prelude.{
  ℕ, suc, ◌+◌, ◌-◌, String, Bool, true, Option, none, some, List, [], ◌∷◌, ltb, leb, length, get_or,
  get_elem?, set, replicate, if◌then◌else◌,
}
use pytusk.Prelude.Int.{ℤ, pos, negsuc, pos_part}
use pytusk.Prelude.Bytes.{Bytes}
use pytusk.Errors.{Result, ok, err, key_error, value_error, index_error, raise_if, ◌>>=◌, ◌>>◌}

pub record WalrusCommitteeMember : Type 0 where
  pub node_id : String
  pub shard_indices : List ℕ
  pub network_address : String
  pub public_key : Bytes

pub record WalrusCommittee : Type 0 where
  pub epoch : ℤ
  pub n_shards : ℤ
  pub members : List WalrusCommitteeMember

unfoldable pub committee_size : WalrusCommittee → ℕ
committee_size committee = length committee.members

-- The entry of the dict that the last member with this node ID writes.
unfoldable pub position_by_node_id : String → ℕ → List WalrusCommitteeMember → Option ℕ
position_by_node_id node_id position [] = none
position_by_node_id node_id position (m ∷ ms) =
    elim (position_by_node_id node_id (position + 1) ms) [
      | some p ↦ some p
      | none ↦ if str_eq m.node_id node_id then some position else none
    ]

unfoldable pub position_of : WalrusCommittee → String → Result ℕ
unfolding position_by_node_id
position_of committee node_id = elim (position_by_node_id node_id 0 committee.members) [
  | none ↦ err key_error
  | some position ↦ ok position
]

-- for shard in member.shard_indices: table[shard] = position
unfoldable pub fill_member : List ℤ → ℕ → List ℕ → List ℤ
fill_member table position [] = table
fill_member table position (shard ∷ shards) =
    fill_member (set table shard (pos position)) position shards

unfoldable pub fill_table : List ℤ → ℕ → List WalrusCommitteeMember → List ℤ
unfolding fill_member
fill_table table position [] = table
fill_table table position (m ∷ ms) =
    fill_table (fill_member table position m.shard_indices) (position + 1) ms

unfoldable pub position_by_shard : WalrusCommittee → List ℤ
unfolding fill_table
position_by_shard committee =
    fill_table (replicate (pos_part committee.n_shards) (negsuc 0)) 0 committee.members

-- shard >= n_shards
abbrev pub at_least : ℕ → ℤ → Bool
at_least shard (pos n) = leb n shard
at_least shard (negsuc n) = true

unfoldable pub position_for_shard : WalrusCommittee → ℕ → Result ℤ
unfolding position_by_shard
position_for_shard committee shard_index = do
  raise_if (at_least shard_index committee.n_shards) value_error
  ok (get_or (position_by_shard committee) shard_index (negsuc 0))

-- members[position]; a negative position counts from the end.
unfoldable pub member_at : List WalrusCommitteeMember → ℤ → Result WalrusCommitteeMember
member_at members (pos p) = elim (get_elem? members p) [ none ↦ err index_error | some m ↦ ok m ]
member_at members (negsuc p) =
    if ltb p (length members)
    then elim (get_elem? members (length members - suc p)) [
      | none ↦ err index_error
      | some m ↦ ok m
    ]
    else err index_error

unfoldable pub member_for_shard : WalrusCommittee → ℕ → Result WalrusCommitteeMember
unfolding position_for_shard member_at
member_for_shard committee shard_index = do
  position ← position_for_shard committee shard_index
  member_at committee.members position
