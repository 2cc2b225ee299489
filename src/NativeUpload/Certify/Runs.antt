-- ===== src/NativeUpload/Certify/Runs.antt =====
-- A certification over a change of the epoch, and the theorems of pytusk/core/native_upload there.
use pytusk.Prelude.{ℕ, ◌-◌, ◌≡◌, refl, String, true, none, some, List, [], ◌∷◌, replicate}
use pytusk.Prelude.Int.{pos, pos_part}
use pytusk.Prelude.Bytes.{Bytes, bytes_eq}
use pytusk.Errors.{Result, ok, returned}
use pytusk.Certification.Certificate.{Bls, Certificate, confirmation_message}
use pytusk.Committee.Json.{JsonValue, JsonDict, str, int, list, dict, nil, cons, empty, field}
use pytusk.Committee.Members.{WalrusCommittee, member_at}
use pytusk.Committee.Build.{Pools}
use pytusk.CommitteeFanout.OneByOne.{one_by_one, one_by_one_laws}
use pytusk.NativeUpload.Confirm.{
  Registration, signed, object_id_bytes, confirmation_candidates, collect_confirmations,
}
use pytusk.NativeUpload.Confirm.Collected.{Collected, collect_confirmations-Collected}
use pytusk.NativeUpload.Certify.{executed, Transacted, Libraries, Outside, certify}
use pytusk.NativeUpload.Certify.Submitted.{Certified, certify-Certified}

abbrev one_field : String → JsonValue → JsonDict
one_field k v = field k v empty

-- A staking object of this epoch, with one member that has both shards.
abbrev staking : ℕ → JsonDict
staking epoch = field "epoch" (int (pos epoch)) (
    field "n_shards" (int (pos 2)) (
      one_field "committee" (
        dict (
          one_field "pos0" (
            dict (
              one_field "contents" (
                list (
                  cons
                    (dict (
                      field "key" (str "a")
                        (one_field "value" (list (cons (int (pos 0)) (cons (int (pos 1)) nil))))))
                    nil))))))))

abbrev pools : Pools
pools =
    (
      "a",
      one_field "node_info" (
          dict (
            field "network_address" (str "a:80")
              (one_field "public_key" (dict (one_field "bytes" (str "AAAA")))))),
    )
    ∷ []

abbrev committee : WalrusCommittee
committee = record {
  epoch = pos 6;
  n_shards = pos 2;
  members =
      record {
        node_id = "a";
        shard_indices = 1 ∷ 0 ∷ [];
        network_address = "a:80";
        public_key = 5 ∷ [];
      }
      ∷ [];
}

-- A signature is the message, and any aggregate of it is the first.
first_of : List Bytes → Bytes
first_of [] = []
first_of (s ∷ ss) = s

bls : Bls
unfolding first_of
bls = record {
  bls_aggregate = λ signatures. returned (first_of signatures);
  bls_aggregate_verify = λ signature keys message. returned (bytes_eq signature message);
  bls_verify = λ key signature message. returned (bytes_eq signature message);
  bls_confirmation_bytes = λ epoch blob_id object_id. epoch ∷ blob_id;
}

libraries : Libraries
unfolding bls
libraries = record {
  bls = bls;
  fromhex = λ text. ok (replicate 32 1);
  b64decode = λ text. ok (replicate 96 0);
}

-- The epoch is 7, and the node signs the message of epoch 7.
outside : Outside
outside = record {
  staking_at_check = λ k. ok (staking 7);
  staking_at_refetch = λ k. ok (staking 7);
  pools_at_refetch = λ k staking_inner. ok pools;
  read_confirmation = λ k member blob_id object_id. signed (7 ∷ blob_id) (7 ∷ blob_id);
  waits = λ k. one_by_one;
  submit = λ commands. executed (some true) "digest";
}

abbrev blob_id : Bytes
blob_id = replicate 32 0

abbrev registration : Registration
registration = record {
  object_id = "0x01";
  registered_blob_id = blob_id;
  end_epoch = 9;
  deletable = true;
  digest = "tx1";
}

abbrev certificate : Certificate
certificate = record {
  serialized_message = 6 ∷ blob_id;
  aggregate_signature = 6 ∷ blob_id;
  signers_bitmap = 1 ∷ [];
  signer_positions = 0 ∷ [];
  weight = 2;
}

collect_confirmations-Collected_example :
    (r : Result Certificate) × (collect_confirmations
        (outside.read_confirmation 0)
        committee
        blob_id
        registration
        libraries.bls
        libraries.fromhex
        one_by_one
        (some (pos 0 ∷ []))
      ≡ some r)
    × Collected
        (outside.read_confirmation 0)
        committee
        blob_id
        registration
        libraries.bls
        committee.members
        (confirmation_message libraries.bls
          (pos_part committee.epoch)
          blob_id
          (some (replicate 32 1)))
        r
unfolding libraries confirmation_candidates object_id_bytes member_at
collect_confirmations-Collected_example =
    collect_confirmations-Collected (outside.read_confirmation 0) committee blob_id registration
      libraries.bls libraries.fromhex one_by_one (some (pos 0 ∷ [])) one_by_one_laws refl refl

certify-Certified_example :
    (out : Transacted) × (certify libraries outside registration blob_id 2 none committee
        certificate
      ≡ some out)
    × Certified libraries outside registration blob_id committee certificate (2 - 1) none out
unfolding outside
certify-Certified_example =
    certify-Certified libraries outside registration blob_id (λ k. one_by_one_laws) 2 none committee
      certificate
