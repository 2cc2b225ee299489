-- ===== src/Committee/Build.antt =====
-- build_committee of pytusk/core/chain/committee.py. The pools are an association list.
use text.Mathlib.Text.{◌==◌ as str_eq}
use pytusk.Prelude.{
  ℕ, ◌+◌, String, Bool, true, not, ◌&&◌, Option, none, some, List, [], ◌∷◌, get_or, set, replicate,
  ◌==◌, if◌then◌else◌,
}
use pytusk.Prelude.Int.{ℤ, pos, negsuc, pos_part}
use pytusk.Prelude.Bytes.{Bytes}
use pytusk.Errors.{Result, ok, err, key_error, value_error, raise_if, ◌>>=◌, ◌>>◌}
use pytusk.Committee.Json.{
  JsonDict, staking_n_shards, staking_committee_shards, staking_epoch, pool_network_address,
  pool_public_key,
}
use pytusk.Committee.Members.{WalrusCommitteeMember, WalrusCommittee, at_least}

abbrev pub Pools : Type 0
Pools = List (String × JsonDict)

-- pools_by_node_id.get(node_id)
unfoldable pub pool_of : String → Pools → Option JsonDict
pool_of node_id [] = none
pool_of node_id ((k, pool) ∷ rest) =
    let later = pool_of node_id rest in if str_eq k node_id then some pool else later

-- The loop over one member's shards: the claimed shards and the new coverage.
unfoldable pub claim : ℤ → List ℤ → List ℕ → Result (List ℕ × List ℕ)
claim n_shards [] coverage = ok ([], coverage)
claim n_shards (negsuc s ∷ rest) coverage = err value_error
claim n_shards (pos s ∷ rest) coverage = do
  raise_if (at_least s n_shards) value_error
  (shards, after) ← claim n_shards rest (set coverage s (get_or coverage s 0 + 1))
  ok (s ∷ shards, after)

module _ (b64decode : String → Result Bytes) (pools : Pools) where
  unfoldable pub found_pool : Option JsonDict → Result JsonDict
  found_pool none = err key_error
  found_pool (some pool) = ok pool

  -- One round of the loop over the committee's entries.
  unfoldable pub add_member : ℤ → String × List ℤ → List ℕ → Result (WalrusCommitteeMember × List ℕ)
  unfolding claim found_pool pool_of
  add_member n_shards (node_id, shard_indices) coverage = do
    pool ← found_pool (pool_of node_id pools)
    (shards, after) ← claim n_shards shard_indices coverage
    network_address ← pool_network_address pool
    public_key ← pool_public_key b64decode pool
    ok (
      record {
        node_id = node_id;
        shard_indices = shards;
        network_address = network_address;
        public_key = public_key;
      },
      after,
    )

  unfoldable pub add_members :
      ℤ → List (String × List ℤ) → List ℕ → Result (List WalrusCommitteeMember × List ℕ)
  unfolding add_member
  add_members n_shards [] coverage = ok ([], coverage)
  add_members n_shards (entry ∷ entries) coverage = do
    (member, after) ← add_member n_shards entry coverage
    (members, final) ← add_members n_shards entries after
    ok (member ∷ members, final)

  -- No shard is uncovered or duplicated.
  unfoldable pub covered_once : List ℕ → Bool
  covered_once [] = true
  covered_once (count ∷ counts) = count == 1 && covered_once counts

  unfoldable pub build_committee : JsonDict → Result WalrusCommittee
  unfolding add_members covered_once
  build_committee staking_inner = do
    n_shards ← staking_n_shards staking_inner
    entries ← staking_committee_shards staking_inner
    (members, coverage) ← add_members n_shards entries (replicate (pos_part n_shards) 0)
    raise_if (not (covered_once coverage)) value_error
    epoch ← staking_epoch staking_inner
    ok (record { epoch = epoch; n_shards = n_shards; members = members })
