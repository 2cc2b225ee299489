-- ===== src/Pipelines/Read/Runs.antt =====
-- A read from a committee of four nodes, and the theorem of pytusk/core/pipelines/read.py there.
use pytusk.Prelude.{ℕ, true, ◌≡◌, refl, Option, some, [], ◌∷◌}
use pytusk.Prelude.Bytes.{Bytes, from_bytes_big}
use pytusk.Prelude.Int.{pos}
use pytusk.Errors.{Result, ok}
use pytusk.Redstuff.Codec.{Axis, primary, verify_blob_metadata, decode_blob, among}
use pytusk.Redstuff.Sizes.{source_symbol_counts}
use pytusk.Redstuff.Rotation.{shard_index_to_pair_index}
use pytusk.Committee.Members.{WalrusCommitteeMember}
use pytusk.CommitteeFanout.{fan_out_to_committee}
use pytusk.CommitteeFanout.OneByOne.{first_done, one_by_one, one_by_one_laws}
use pytusk.NativeRead.Runs.{committee, decoder, blob_id, heads}
use pytusk.NativeRead.Fetch.{asked, fetch_node_slivers, fold_node, fetch_slivers_attributed}
use pytusk.NativeRead.Metadata.{fetch_verified_metadata}
use pytusk.NativeRead.Reconstruct.{decode_attributed, reconstruct_blob}
use pytusk.Pipelines.Read.{NativeReadResult, ReadWorld, read_blob_native}
use pytusk.Pipelines.Read.Decoded.{Read, read_blob_native-Read}

-- Each node gives the slivers of its shards, and the blob's metadata.
abbrev give_sliver : WalrusCommitteeMember → Bytes → ℕ → Axis → Option Bytes
give_sliver member id pair_index axis = some (pair_index ∷ [])

abbrev world : ReadWorld ℕ Bytes
world = record {
  native = decoder;
  chain_committee = ok committee;
  read_metadata = λ member id. some id;
  start = 2;
  read_sliver = give_sliver;
  read_again = give_sliver;
  waits = one_by_one;
  waits_again = one_by_one;
}

abbrev content_read : NativeReadResult
content_read = record {
  content = 0 ∷ 1 ∷ 2 ∷ 3 ∷ 4 ∷ [];
  blob_id = blob_id;
  epoch = pos 1;
  axis = primary;
  slivers_used = 5;
}

read : read_blob_native world blob_id primary true ≡ some (ok content_read)
unfolding read_blob_native source_symbol_counts fetch_verified_metadata verify_blob_metadata
    reconstruct_blob among decode_attributed decode_blob heads fetch_slivers_attributed
    fan_out_to_committee first_done asked fold_node fetch_node_slivers shard_index_to_pair_index
    from_bytes_big
read = refl

read_blob_native-Read_example :
    (r : Result NativeReadResult) × (read_blob_native world blob_id primary true ≡ some r)
    × Read world one_by_one_laws one_by_one_laws blob_id primary true r
read_blob_native-Read_example =
    read_blob_native-Read world one_by_one_laws one_by_one_laws blob_id primary true
