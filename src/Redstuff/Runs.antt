-- ===== src/Redstuff/Runs.antt =====
-- Concrete runs of the functions of pytusk/core/encoding/redstuff.py, and its theorems at such inputs.
use pytusk.Prelude.{
  ℕ, ◌+◌, ◌*◌, ◌%◌, ◌≤◌, ◌<◌, ◌≡◌, ◌↔◌, refl, [], ◌∷◌, ◌++◌, replicate, arith, none, some,
}
use pytusk.Prelude.Bytes.{Bytes, from_bytes_big}
use pytusk.Errors.{ok, returned, raised}
use pytusk.Redstuff.Sizes.{
  source_symbol_counts, symbol_size, max_blob_size, rs2_max_symbol_size, encoded_blob_length,
  metadata_length,
}
use pytusk.Redstuff.Sizes.Bounds.{
  capacity, symbol_size_least, max_blob_size_iff, encoded_blob_length_bounds,
}
use pytusk.Redstuff.Rotation.{shard_index_to_pair_index, pair_index_to_shard_index}
use pytusk.Redstuff.Rotation.RoundTrip.{pair_index-shard_index}
use pytusk.Redstuff.Codec.{Native, EncodedBlob, encode_blob}
use pytusk.Redstuff.Codec.Guards.{encode_blob_lem}

-- The shard count of the example in max_blob_size's documentation.
max_blob_size_1000 : max_blob_size 1000 ≡ 14_599_533_452
unfolding max_blob_size source_symbol_counts
max_blob_size_1000 = refl

counts_6 : source_symbol_counts 6 ≡ (4, 5)
unfolding source_symbol_counts
counts_6 = refl

symbol_size_runs : symbol_size 0 6 ≡ 2
unfolding symbol_size source_symbol_counts
symbol_size_runs = refl

abbrev example_id : Bytes
example_id = 3 ∷ replicate 30 0 ++ 7 ∷ []

rotation_runs : shard_index_to_pair_index 2 example_id 10 ≡ ok 7
unfolding shard_index_to_pair_index from_bytes_big
rotation_runs = refl

symbol_size_least_example :
    (0 < symbol_size 1000 6)
    × (symbol_size 1000 6 % 2 ≡ 0)
    × ((symbol_size 1000 6 ≤ 50) ↔ (1000 ≤ 50 * capacity 6))
symbol_size_least_example = symbol_size_least 1000 6 50 (omega arith) refl

max_blob_size_iff_example : (1000 ≤ max_blob_size 6) ↔ (symbol_size 1000 6 ≤ rs2_max_symbol_size)
max_blob_size_iff_example = max_blob_size_iff 1000 6

encoded_blob_length_bounds_example :
    (1000 + 6 * metadata_length 6 ≤ encoded_blob_length 1000 6)
    × (encoded_blob_length 1000 6 ≤ encoded_blob_length 2000 6)
encoded_blob_length_bounds_example =
    encoded_blob_length_bounds 1000 2000 6 (omega arith) (omega arith)

pair_index-shard_index_example :
    (p : ℕ) × (shard_index_to_pair_index 2 example_id 10 ≡ ok p)
    × (p < 10)
    × (pair_index_to_shard_index p example_id 10 ≡ ok 2)
pair_index-shard_index_example = pair_index-shard_index example_id 10 refl 2 (omega arith)

-- An extension that encodes every blob to no slivers.
abbrev native : Native ℕ ℕ
native = record {
  redstuff_encode = λ content n. returned (record {
    blob_id = example_id;
    root_hash = example_id;
    slivers = [];
    metadata_bcs = content;
  });
  redstuff_verify_metadata = λ metadata n. returned n;
  redstuff_verify_sliver = λ sliver handle axis. raised (some "merkle_root_mismatch");
  redstuff_decode_and_verify = λ slivers handle axis. raised none;
  redstuff_decode = λ slivers size n axis. returned [];
  handle_blob_id = λ handle. example_id;
  handle_unencoded_length = λ handle. 0;
  handle_n_shards = λ handle. handle;
}

abbrev encoded_example : EncodedBlob ℕ
encoded_example = record {
  blob_id = example_id;
  root_hash = example_id;
  unencoded_length = 2;
  n_shards = 6;
  slivers = [];
  metadata_bcs = 1 ∷ 2 ∷ [];
}

encode_blob_runs : encode_blob native (1 ∷ 2 ∷ []) 6 ≡ ok encoded_example
unfolding encode_blob max_blob_size source_symbol_counts
encode_blob_runs = refl

encode_blob_lem_example :
    (0 < 6)
    × (symbol_size 2 6 ≤ rs2_max_symbol_size)
    × (encoded_example.unencoded_length ≡ 2)
    × (encoded_example.n_shards ≡ 6)
encode_blob_lem_example = encode_blob_lem native (1 ∷ 2 ∷ []) 6 encode_blob_runs
