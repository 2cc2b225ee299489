-- ===== src/Committee/Runs.antt =====
-- A staking object with two members, and the theorem of pytusk/core/chain/committee.py there.
use pytusk.Prelude.{
  ℕ, ◌≡◌, refl, String, true, some, [], ◌∷◌, get_elem?, replicate, contains, arith,
}
use pytusk.Prelude.Int.{pos}
use pytusk.Prelude.Bytes.{Bytes}
use pytusk.Errors.{Result, ok}
use pytusk.Committee.Json.{
  JsonValue, JsonList, JsonDict, str, int, list, dict, nil, cons, empty, field, staking_n_shards,
  staking_committee_shards, pool_network_address, pool_public_key, staking_epoch,
}
use pytusk.Committee.Members.{
  WalrusCommitteeMember, WalrusCommittee, position_for_shard, member_for_shard,
}
use pytusk.Committee.Build.{Pools, build_committee}
use pytusk.Committee.Coverage.{claims}
use pytusk.Committee.Cover.{build_committee_covers}

-- Every text decodes to a key of zeros.
zeros : String → Result Bytes
zeros encoded = ok (replicate 96 0)

abbrev one_field : String → JsonValue → JsonDict
one_field k v = field k v empty

abbrev member_entry : String → JsonList → JsonValue
member_entry node_id shards = dict (field "key" (str node_id) (one_field "value" (list shards)))

abbrev staking : JsonDict
staking = field "epoch" (int (pos 7)) (
    field "n_shards" (int (pos 3)) (
      one_field "committee" (
        dict (
          one_field "pos0" (
            dict (
              one_field "contents" (
                list (
                  cons (member_entry "a" (cons (int (pos 2)) (cons (int (pos 0)) nil)))
                    (cons (member_entry "b" (cons (int (pos 1)) nil)) nil)))))))))

abbrev pool : String → JsonDict
pool address = one_field "node_info" (
    dict (
      field "network_address" (str address)
        (one_field "public_key" (dict (one_field "bytes" (str "AAAA"))))))

abbrev pools : Pools
pools = ("b", pool "b:80") ∷ ("c", pool "c:80") ∷ ("a", pool "a:80") ∷ []

abbrev committee : WalrusCommittee
committee = record {
  epoch = pos 7;
  n_shards = pos 3;
  members =
      record {
        node_id = "a";
        shard_indices = 2 ∷ 0 ∷ [];
        network_address = "a:80";
        public_key = replicate 96 0;
      }
      ∷ record {
        node_id = "b";
        shard_indices = 1 ∷ [];
        network_address = "b:80";
        public_key = replicate 96 0;
      }
      ∷ [];
}

built : build_committee zeros pools staking ≡ ok committee
unfolding build_committee zeros staking_n_shards staking_committee_shards pool_network_address
    pool_public_key staking_epoch
built = refl

build_committee_covers_example :
    (claims 1 committee.members ≡ 1)
    × ((p : ℕ) × (m : WalrusCommitteeMember) × (position_for_shard committee 1 ≡ ok (pos p))
        × (get_elem? committee.members p ≡ some m)
        × (member_for_shard committee 1 ≡ ok m)
        × (contains 1 m.shard_indices ≡ true))
build_committee_covers_example = build_committee_covers zeros pools staking 1 built (omega arith)
