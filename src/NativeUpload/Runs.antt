-- ===== src/NativeUpload/Runs.antt =====
-- An upload to a committee of two nodes, and the theorems of pytusk/core/native_upload there.
use text.Mathlib.Text.{◌==◌ as str_eq}
use pytusk.Prelude.{
  ◌≤◌, ◌*◌, ◌+◌, length, ◌⊎◌, true, All, ℕ, suc, ◌≡◌, refl, String, none, some, List, [], ◌∷◌, ◌==◌,
  if◌then◌else◌, replicate,
}
use pytusk.Prelude.Int.{pos}
use pytusk.Errors.{Result, ok, err, sliver_upload}
use pytusk.Redstuff.Codec.{EncodedBlob}
use pytusk.Committee.Members.{WalrusCommitteeMember, WalrusCommittee, position_of, member_for_shard}
use pytusk.CommitteeFanout.{EventLoop, fan_out_to_committee}
use pytusk.CommitteeFanout.OneByOne.{first_done, one_by_one, one_by_one_laws}
use pytusk.NativeUpload.Retry.{
  Response, stored, refused, done, FanoutProgress, put_metadata, put_sliver,
}
use pytusk.NativeUpload.Retry.Attempts.{EndsAt, IsCounted, put_sliver-EndsAt}
use pytusk.NativeUpload.Throttle.{
  must_wait, acquire, release, new_throttle, Puts, look, notify_all, release_put,
}
use pytusk.NativeUpload.Throttle.Waiting.{
  Step as PutStep, looks, releases, Run, AllDone, puts_finish,
}
use pytusk.NativeUpload.Throttle.Waiting
use pytusk.NativeUpload.Throttle.Reservations.{
  Shared, enter, leave, Reach, start, next, IsBounded, Reach-IsBounded,
}
use pytusk.Certification.Quorum.{min_weight_for_quorum}
use pytusk.NativeUpload.Node.{
  SliverPair, ExecuteClient, metadata_put, put_specs, failed_reason, sliver_put, upload_node,
  outcome_from_task,
}
use pytusk.NativeUpload.Node.Stored.{Uploaded, upload_node-Uploaded}
use pytusk.NativeUpload.Slivers.{FanoutReport, shards_by_node, upload_slivers}
use pytusk.NativeUpload.Slivers.Targets.{AreTargets}
use pytusk.NativeUpload.Slivers.Quorum.{Ended, upload_slivers-Ended}

-- The first two attempts are refused.
abbrev third_time : ℕ → Response
third_time attempt = if attempt == 2 then stored else refused "busy"

abbrev started : FanoutProgress
started = record { puts_in_flight = 4; puts_completed = 1; puts_failed = 0 }

put_runs :
    put_sliver third_time 5 started
    ≡ (done, record { puts_in_flight = 4; puts_completed = 2; puts_failed = 2 })
unfolding put_sliver
put_runs = refl

put_sliver-EndsAt_example :
    (k : ℕ) × EndsAt third_time 5 0 (put_sliver third_time 5 started).0 k
    × IsCounted third_time started
        (put_sliver third_time 5 started).1
        (put_sliver third_time 5 started).0
        (suc k)
put_sliver-EndsAt_example = put_sliver-EndsAt third_time 5 started

-- A PUT of 20 bytes is alone in a throttle of 10, and then one of 4 is let in.
abbrev oversized : Shared
oversized = record { throttle = record { max_bytes = 10; in_flight = 20 }; held = 20 ∷ [] }

abbrev small : Shared
small = record { throttle = record { max_bytes = 10; in_flight = 4 }; held = 4 ∷ [] }

Reach-oversized : Reach 10 oversized
unfolding acquire new_throttle
Reach-oversized = next start (enter 20 (oversized.throttle) refl)

Reach-small : Reach 10 small
unfolding acquire new_throttle release
Reach-small = next (next Reach-oversized (leave [] 20 [] refl)) (enter 4 (small.throttle) refl)

oversized_alone : acquire (oversized.throttle) 1 ≡ none
unfolding acquire
oversized_alone = refl

Reach-IsBounded_example : IsBounded 10 small
Reach-IsBounded_example = Reach-IsBounded 10 Reach-small

-- A PUT of 20 bytes enters a throttle of 10, one of 4 bytes sleeps until the first releases, and looks again.
abbrev woken : Puts
woken = record {
  throttle = record { max_bytes = 10; in_flight = 0 };
  held = [];
  ready = 4 ∷ [];
  waiting = [];
}

abbrev two_puts : List ℕ
two_puts = 20 ∷ 4 ∷ []

woken_run : Run 10 (20 ∷ 4 ∷ []) 3 woken
unfolding look acquire release_put release notify_all new_throttle
woken_run =
    Waiting.next
      (Waiting.next (Waiting.next Waiting.start (looks [] 20 (4 ∷ []) refl)) (looks [] 4 [] refl))
      (releases [] 20 [] refl)

puts_finish_example :
    All (λ size. must_wait woken.throttle size ≡ true) woken.waiting
    × (3 ≤ 2 * length two_puts * (length two_puts + 1) + length two_puts)
    × (AllDone woken ⊎ ((u : Puts) × PutStep woken u))
puts_finish_example = puts_finish 10 two_puts woken_run

abbrev node : String → List ℕ → WalrusCommitteeMember
node node_id shard_indices = record {
  node_id = node_id;
  shard_indices = shard_indices;
  network_address = "";
  public_key = [];
}

abbrev committee : WalrusCommittee
committee = record {
  epoch = pos 7;
  n_shards = pos 3;
  members = node "a" (0 ∷ 2 ∷ []) ∷ node "b" (1 ∷ []) ∷ [];
}

abbrev pair : ℕ → SliverPair
pair i = record { sliver_pair_index = i; primary_data = i ∷ []; secondary_data = [] }

abbrev encoded_blob : EncodedBlob SliverPair
encoded_blob = record {
  blob_id = replicate 32 0;
  root_hash = [];
  unencoded_length = 1;
  n_shards = 3;
  slivers = pair 2 ∷ pair 0 ∷ pair 1 ∷ [];
  metadata_bcs = [];
}

-- Everything is stored at once, but the sliver pairs of the node "b".
client : ExecuteClient
client = record {
  write_metadata = λ member blob_id metadata_bcs attempt. stored;
  write_sliver =
      λ member blob_id spec attempt. if str_eq member.node_id "b" then refused "full" else stored;
}

abbrev waits : {Task : Type 0} → WalrusCommitteeMember → EventLoop Task
waits m = one_by_one

upload_node-Uploaded_example :
    Uploaded client 1 encoded_blob waits 1
      (node "b" (1 ∷ []))
      (upload_node client 1 encoded_blob waits committee (node "b" (1 ∷ [])))
unfolding position_of
upload_node-Uploaded_example =
    upload_node-Uploaded client 1 encoded_blob waits committee 1 (node "b" (1 ∷ [])) refl
      one_by_one_laws

grouped : shards_by_node committee ≡ ok (("a", 0 ∷ 2 ∷ []) ∷ ("b", 1 ∷ []) ∷ [])
unfolding shards_by_node member_for_shard
grouped = refl

-- Two shards of three are no quorum.
upload_runs :
    upload_slivers client 1 encoded_blob waits committee one_by_one ≡ some (err sliver_upload)
unfolding upload_slivers client fan_out_to_committee first_done shards_by_node member_for_shard
    position_of outcome_from_task upload_node metadata_put put_metadata put_specs failed_reason
    sliver_put put_sliver min_weight_for_quorum
upload_runs = refl

upload_slivers-Ended_example :
    (members : List WalrusCommitteeMember) × AreTargets committee members
    × ((r : Result FanoutReport) × (upload_slivers client 1 encoded_blob waits committee one_by_one
          ≡ some r)
        × Ended client 1 encoded_blob waits committee members r)
upload_slivers-Ended_example =
    upload_slivers-Ended client 1 encoded_blob waits committee one_by_one one_by_one_laws
      (λ m. one_by_one_laws) refl grouped
