-- ===== src/Committee/Json.antt =====
-- The decoded JSON of pytusk/core/chain/committee.py and the readers of its fields. The paths that only
-- error messages name are left out; base64.b64decode is a parameter.
use text.Mathlib.Text.{◌==◌ as str_eq}
use pytusk.Prelude.{ℕ, String, Bool, not, List, [], ◌∷◌, ◌==◌, length, if◌then◌else◌}
use pytusk.Prelude.Int.{ℤ}
use pytusk.Prelude.Bytes.{Bytes}
use pytusk.Errors.{Result, ok, err, type_error, value_error, raise_if, ◌>>=◌, ◌>>◌}

-- A Python float is `whole` if is_integer() holds of it, else `fraction`.
mutual
  pub data JsonValue : Type 0 where
    str : String → JsonValue
    int : ℤ → JsonValue
    whole : ℤ → JsonValue
    fraction : JsonValue
    bool : Bool → JsonValue
    null : JsonValue
    list : JsonList → JsonValue
    dict : JsonDict → JsonValue

  pub data JsonList : Type 0 where
    nil : JsonList
    cons : JsonValue → JsonList → JsonList

  pub data JsonDict : Type 0 where
    empty : JsonDict
    field : String → JsonValue → JsonDict → JsonDict

-- node.get(key)
unfoldable pub get : String → JsonDict → JsonValue
get key empty = null
get key (field k v rest) = let later = get key rest in if str_eq k key then v else later

unfoldable pub require_dict : JsonValue → Result JsonDict
require_dict (dict fields) = ok fields
require_dict _ = err type_error

unfoldable pub require_list : JsonValue → Result JsonList
require_list (list entries) = ok entries
require_list _ = err type_error

unfoldable pub require_str : JsonValue → Result String
require_str (str s) = ok s
require_str _ = err type_error

unfoldable pub require_int : JsonValue → Result ℤ
require_int (int n) = ok n
require_int (whole n) = ok n
require_int fraction = err value_error
require_int _ = err type_error

unfoldable pub staking_epoch : JsonDict → Result ℤ
unfolding get require_int
staking_epoch staking_inner = require_int (get "epoch" staking_inner)

unfoldable pub staking_n_shards : JsonDict → Result ℤ
unfolding get require_int
staking_n_shards staking_inner = require_int (get "n_shards" staking_inner)

unfoldable pub staking_pools_table_id : JsonDict → Result String
unfolding get require_dict require_str
staking_pools_table_id staking_inner = do
  pools ← require_dict (get "pools" staking_inner)
  require_str (get "id" pools)

-- The tuple of the shard indices of one committee entry.
shard_values : JsonList → Result (List ℤ)
unfolding require_int
shard_values nil = ok []
shard_values (cons shard rest) = do n ← require_int shard; ns ← shard_values rest; ok (n ∷ ns)

committee_entry : JsonValue → Result (String × List ℤ)
unfolding get require_dict require_str require_list shard_values
committee_entry raw_entry = do
  entry ← require_dict raw_entry
  node_id ← require_str (get "key" entry)
  values ← require_list (get "value" entry)
  shard_indices ← shard_values values
  ok (node_id, shard_indices)

committee_entries : JsonList → Result (List (String × List ℤ))
unfolding committee_entry
committee_entries nil = ok []
committee_entries (cons raw_entry rest) = do
  entry ← committee_entry raw_entry
  entries ← committee_entries rest
  ok (entry ∷ entries)

unfoldable pub staking_committee_shards : JsonDict → Result (List (String × List ℤ))
unfolding get require_dict require_list committee_entries
staking_committee_shards staking_inner = do
  committee ← require_dict (get "committee" staking_inner)
  vec_map ← require_dict (get "pos0" committee)
  contents ← require_list (get "contents" vec_map)
  committee_entries contents

unfoldable pub pool_node_id : JsonDict → Result String
unfolding get require_dict require_str
pool_node_id pool = do
  node_info ← require_dict (get "node_info" pool)
  require_str (get "node_id" node_info)

unfoldable pub pool_network_address : JsonDict → Result String
unfolding get require_dict require_str
pool_network_address pool = do
  node_info ← require_dict (get "node_info" pool)
  require_str (get "network_address" node_info)

abbrev pub uncompressed_g1_length : ℕ
uncompressed_g1_length = 96

unfoldable pub pool_public_key : (String → Result Bytes) → JsonDict → Result Bytes
unfolding get require_dict require_str
pool_public_key b64decode pool = do
  node_info ← require_dict (get "node_info" pool)
  public_key ← require_dict (get "public_key" node_info)
  encoded ← require_str (get "bytes" public_key)
  decoded ← b64decode encoded
  raise_if (not (length decoded == uncompressed_g1_length)) value_error
  ok decoded
