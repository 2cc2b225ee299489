-- ===== src/Redstuff/Rotation.antt =====
-- The conversions of blob IDs in pytusk/core/encoding/redstuff.py, and the rotation between shard
-- indices and sliver-pair indices. An index is a natural, so the tests below zero cannot fail.
pub mod RoundTrip
use pytusk.Prelude.{ℕ, zero, ◌+◌, ◌-◌, ◌%◌, not, ltb, leb, ◌==◌, length, ◌&&◌}
use pytusk.Prelude.Bytes.{Bytes, from_bytes_little, from_bytes_big}
use pytusk.Errors.{Result, ok, err, value_error, raise_if, ◌>>=◌, ◌>>◌}

unfoldable pub blob_id_to_u256 : Bytes → Result ℕ
blob_id_to_u256 blob_id = do
  raise_if (not (length blob_id == 32)) value_error
  ok (from_bytes_little blob_id)

unfoldable pub root_hash_to_u256 : Bytes → Result ℕ
root_hash_to_u256 root_hash = do
  raise_if (not (length root_hash == 32)) value_error
  ok (from_bytes_little root_hash)

unfoldable pub rotation_offset : Bytes → ℕ → Result ℕ
rotation_offset blob_id n_shards = do
  raise_if (not (length blob_id == 32)) value_error
  raise_if (leb n_shards 0) value_error
  ok (from_bytes_big blob_id % n_shards)

unfoldable pub shard_index_to_pair_index : ℕ → Bytes → ℕ → Result ℕ
unfolding rotation_offset
shard_index_to_pair_index shard_index blob_id n_shards = do
  offset ← rotation_offset blob_id n_shards
  raise_if (not (leb 0 shard_index && ltb shard_index n_shards)) value_error
  ok ((n_shards + shard_index - offset) % n_shards)

unfoldable pub pair_index_to_shard_index : ℕ → Bytes → ℕ → Result ℕ
unfolding rotation_offset
pair_index_to_shard_index pair_index blob_id n_shards = do
  offset ← rotation_offset blob_id n_shards
  raise_if (not (leb 0 pair_index && ltb pair_index n_shards)) value_error
  ok ((pair_index + offset) % n_shards)
