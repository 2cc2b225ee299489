-- ===== src/Pipelines/Native/Runs.antt =====
-- A write to a committee of one node, and the theorem of pytusk/core/pipelines/write.py there.
use pytusk.Prelude.{ℕ, ◌≡◌, String, Bool, true, none, some, List, [], ◌∷◌, replicate}
use pytusk.Prelude.Int.{pos}
use pytusk.Prelude.Bytes.{Bytes, bytes_eq}
use pytusk.Errors.{Result, ok, returned, raised}
use pytusk.Redstuff.Codec.{Native}
use pytusk.Certification.Certificate.{Bls}
use pytusk.Committee.Json.{JsonValue, JsonDict, str, int, list, dict, nil, cons, empty, field}
use pytusk.Committee.Members.{WalrusCommittee}
use pytusk.Committee.Build.{Pools}
use pytusk.CommitteeFanout.OneByOne.{one_by_one, one_by_one_laws}
use pytusk.NativeUpload.Retry.{stored}
use pytusk.NativeUpload.Node.{SliverPair}
use pytusk.NativeUpload.Confirm.{Registration, signed}
use pytusk.NativeUpload.Certify.{executed, Libraries}
use pytusk.Pipelines.Native.{NativeBlobReceipt, registered, World, store_blob_native}
use pytusk.Pipelines.Native.Stored.{Stored, store_blob_native-Stored}

abbrev one_field : String → JsonValue → JsonDict
one_field k v = field k v empty

-- A staking object of this epoch, with one member that has both shards.
abbrev staking : ℕ → JsonDict
staking epoch = field "epoch" (int (pos epoch)) (
    field "n_shards" (int (pos 2)) (
      one_field "committee" (
        dict (
          one_field "pos0" (
            dict (
              one_field "contents" (
                list (
                  cons
                    (dict (
                      field "key" (str "a")
                        (one_field "value" (list (cons (int (pos 0)) (cons (int (pos 1)) nil))))))
                    nil))))))))

abbrev pools : Pools
pools =
    (
      "a",
      one_field "node_info" (
          dict (
            field "network_address" (str "a:80")
              (one_field "public_key" (dict (one_field "bytes" (str "AAAA")))))),
    )
    ∷ []

abbrev committee : WalrusCommittee
committee = record {
  epoch = pos 6;
  n_shards = pos 2;
  members =
      record {
        node_id = "a";
        shard_indices = 1 ∷ 0 ∷ [];
        network_address = "a:80";
        public_key = 5 ∷ [];
      }
      ∷ [];
}

-- A signature is the message, and any aggregate of it is the first.
first_of : List Bytes → Bytes
first_of [] = []
first_of (s ∷ ss) = s

bls : Bls
unfolding first_of
bls = record {
  bls_aggregate = λ signatures. returned (first_of signatures);
  bls_aggregate_verify = λ signature keys message. returned (bytes_eq signature message);
  bls_verify = λ key signature message. returned (bytes_eq signature message);
  bls_confirmation_bytes = λ epoch blob_id object_id. epoch ∷ blob_id;
}

libraries : Libraries
unfolding bls
libraries = record {
  bls = bls;
  fromhex = λ text. ok (replicate 32 1);
  b64decode = λ text. ok (replicate 96 0);
}

abbrev blob_id : Bytes
blob_id = replicate 32 0

abbrev registration : Registration
registration = record {
  object_id = "0x01";
  registered_blob_id = blob_id;
  end_epoch = 9;
  deletable = true;
  digest = "tx1";
}

abbrev pair : ℕ → SliverPair
pair i = record { sliver_pair_index = i; primary_data = i ∷ []; secondary_data = [] }

abbrev native : Native SliverPair Bool
native = record {
  redstuff_encode = λ content n_shards. returned (record {
    blob_id = blob_id;
    root_hash = [];
    slivers = pair 0 ∷ pair 1 ∷ [];
    metadata_bcs = [];
  });
  redstuff_verify_metadata = λ metadata_bcs n_shards. returned true;
  redstuff_verify_sliver = λ sliver handle axis. raised none;
  redstuff_decode_and_verify = λ slivers handle axis. raised none;
  redstuff_decode = λ slivers n_shards size axis. raised none;
  handle_blob_id = λ handle. blob_id;
  handle_unencoded_length = λ handle. 0;
  handle_n_shards = λ handle. 2;
}

-- Everything goes well; the staking object at a check of the epoch is the argument.
abbrev world : Result JsonDict → World Bool
world staking_inner = record {
  native = native;
  context = ok committee;
  register = λ encoded. registered registration;
  client = record {
    write_metadata = λ member blob_id metadata_bcs attempt. stored;
    write_sliver = λ member blob_id spec attempt. stored;
  };
  put_waits = λ member. one_by_one;
  upload_waits = one_by_one;
  read_confirmation = λ member blob_id object_id. signed (6 ∷ blob_id) (6 ∷ blob_id);
  confirm_waits = one_by_one;
  libraries = libraries;
  outside = record {
    staking_at_check = λ k. staking_inner;
    staking_at_refetch = λ k. ok (staking 6);
    pools_at_refetch = λ k inner. ok pools;
    read_confirmation = λ k member blob_id object_id. signed (6 ∷ blob_id) (6 ∷ blob_id);
    waits = λ k. one_by_one;
    submit = λ commands. executed (some true) "digest";
  };
}

store_blob_native-Stored_example :
    (r : Result NativeBlobReceipt) × (store_blob_native (world (ok (staking 6))) (1 ∷ []) none
      ≡ some r)
    × Stored (world (ok (staking 6))) (1 ∷ []) none r
store_blob_native-Stored_example =
    store_blob_native-Stored (world (ok (staking 6))) (1 ∷ []) none one_by_one_laws one_by_one_laws
      (λ k. one_by_one_laws)
