-- ===== src/NativeRead/Runs.antt =====
-- Reads from a committee of four nodes, and the theorems of pytusk/core/native_read there.
use text.Mathlib.Text.{◌==◌ as str_eq}
use pytusk.Prelude.{
  ℕ, All, false, true, ◌≡◌, refl, get_elem?, Bool-cases, inl, inr, arith, String, Option, none,
  some, List, [], ◌∷◌, replicate, if◌then◌else◌, ◌==◌,
}
use pytusk.Prelude.Int.{pos, pos_part}
use pytusk.Prelude.Bytes.{Bytes, from_bytes_big}
use pytusk.Errors.{Result, ok, Answer, returned, raised}
use pytusk.Redstuff.Codec.{
  Axis, primary, Native, VerifiedBlobMetadata, verify_blob_metadata, decode_blob, verify_sliver,
  among,
}
use pytusk.Redstuff.Rotation.{shard_index_to_pair_index}
use pytusk.Committee.Members.{WalrusCommitteeMember, WalrusCommittee}
use pytusk.CommitteeFanout.{fan_out_to_committee}
use pytusk.CommitteeFanout.OneByOne.{first_done, one_by_one, one_by_one_laws}
use pytusk.NativeRead.Metadata.{
  examined, fetch_verified_metadata, IsAnswered, fetch_verified_metadata-IsAnswered,
  fetch_verified_metadata_finds,
}
use pytusk.NativeRead.Reconstruct.{
  decode_attributed, partition_by_verification, merge_distinct, reconstruct_blob,
}
use pytusk.NativeRead.Reconstruct.Decoded.{IsDecoded, reconstruct_blob-IsDecoded}
use pytusk.NativeRead.Fetch.{asked, fetch_node_slivers, fold_node, fetch_slivers_attributed}
use pytusk.NativeRead.Fetch.Excluded.{fetch_slivers_attributed_excludes}
use pytusk.NativeRead.Fetch.{contains_str}
use pytusk.NativeRead.Fetch.Outcome.{Outcome, fetch_slivers_attributed-Outcome}

abbrev node : String → List ℕ → WalrusCommitteeMember
node node_id shard_indices = record {
  node_id = node_id;
  shard_indices = shard_indices;
  network_address = "";
  public_key = [];
}

abbrev pub committee : WalrusCommittee
committee = record {
  epoch = pos 1;
  n_shards = pos 5;
  members = node "a" (0 ∷ 1 ∷ []) ∷ node "b" (2 ∷ 3 ∷ []) ∷ node "c" (4 ∷ []) ∷ node "d" [] ∷ [];
}

-- The node "a" gives one sliver for every request, "b" fails on pair 3.
read_sliver : WalrusCommitteeMember → Bytes → ℕ → Axis → Option Bytes
read_sliver member blob_id pair_index axis =
    if str_eq member.node_id "a"
    then some (9 ∷ [])
    else if pair_index == 3
    then none
    else some (pair_index ∷ [])

abbrev pub blob_id : Bytes
blob_id = replicate 32 0

fetched :
    fetch_slivers_attributed read_sliver blob_id primary one_by_one committee 3 []
    ≡ some (ok ((9 ∷ [], "a") ∷ (2 ∷ [], "b") ∷ (4 ∷ [], "c") ∷ []))
unfolding fetch_slivers_attributed fan_out_to_committee first_done asked fold_node
    fetch_node_slivers shard_index_to_pair_index read_sliver from_bytes_big
fetched = refl

fetch_slivers_attributed-Outcome_example :
    (r : Result (List (Bytes × String))) × (fetch_slivers_attributed read_sliver blob_id primary
        one_by_one committee 3
        ("b" ∷ [])
      ≡ some r)
    × Outcome read_sliver blob_id primary
        (pos_part committee.n_shards)
        (asked ("b" ∷ []) committee.members)
        3
        r
fetch_slivers_attributed-Outcome_example =
    fetch_slivers_attributed-Outcome read_sliver blob_id primary one_by_one one_by_one_laws
      committee 3 ("b" ∷ [])

-- Metadata is the blob ID itself, and an empty one does not verify.
verified_handle : Bytes → Answer Bytes
verified_handle [] = raised (some "invalid_metadata_bcs")
verified_handle (b ∷ bs) = returned (b ∷ bs)

abbrev native : Native ℕ Bytes
native = record {
  redstuff_encode = λ content n. raised none;
  redstuff_verify_metadata = λ metadata n. verified_handle metadata;
  redstuff_verify_sliver = λ sliver handle axis. returned tt;
  redstuff_decode_and_verify = λ slivers handle axis. raised none;
  redstuff_decode = λ slivers size n axis. returned [];
  handle_blob_id = λ handle. handle;
  handle_unencoded_length = λ handle. 0;
  handle_n_shards = λ handle. 5;
}

-- The node "b" answers for another blob, "c" for the one asked for, and the others do not answer.
read_metadata : WalrusCommitteeMember → Bytes → Option Bytes
read_metadata member blob_id =
    if str_eq member.node_id "b"
    then some (replicate 32 1)
    else if str_eq member.node_id "c"
    then some blob_id
    else none

abbrev metadata : VerifiedBlobMetadata Bytes
metadata = record { blob_id = blob_id; unencoded_length = 0; n_shards = 5; handle = blob_id }

found : fetch_verified_metadata native read_metadata blob_id 5 committee.members 1 ≡ ok metadata
unfolding fetch_verified_metadata read_metadata verify_blob_metadata verified_handle
found = refl

fetch_verified_metadata-IsAnswered_example :
    IsAnswered native read_metadata blob_id 5 committee.members 1 metadata
fetch_verified_metadata-IsAnswered_example =
    fetch_verified_metadata-IsAnswered native read_metadata blob_id 5 committee.members 1 found

calm :
    (i : ℕ) (m : WalrusCommitteeMember)
    → get_elem? committee.members i ≡ some m
    → (o : Option (VerifiedBlobMetadata Bytes)) × (examined native read_metadata blob_id 5
          (read_metadata m blob_id)
        ≡ ok o)
unfolding examined read_metadata verify_blob_metadata verified_handle
calm i m e = elim (Bool-cases (str_eq m.node_id "b")) [
  | inl b ↦ (none, rw b refl)
  | inr not_b ↦ elim (Bool-cases (str_eq m.node_id "c")) [
    | inl c ↦ (some metadata, rw not_b (rw c refl))
    | inr other ↦ (none, rw not_b (rw other refl))
  ]
]

verified_c : verify_blob_metadata native blob_id 5 ≡ ok metadata
unfolding verify_blob_metadata verified_handle
verified_c = refl

response_c : read_metadata (node "c" (4 ∷ [])) blob_id ≡ some blob_id
unfolding read_metadata
response_c = refl

fetch_verified_metadata_finds_example :
    (found : VerifiedBlobMetadata Bytes) × (fetch_verified_metadata native read_metadata blob_id 5
        committee.members 3
      ≡ ok found)
fetch_verified_metadata_finds_example =
    fetch_verified_metadata_finds native read_metadata blob_id 5 committee.members 3 2
      (node "c" (4 ∷ [])) blob_id (omega arith) calm refl response_c verified_c refl

-- The decoder gives up on a sliver of "a", which does not verify either; without it, it returns the
-- slivers' first bytes.
unfoldable pub heads : List Bytes → Answer Bytes
heads [] = returned []
heads ([] ∷ rest) = raised (some "invalid_sliver_bcs")
heads ((b ∷ bs) ∷ rest) =
    if b == 9
    then raised (some "decoding_unsuccessful")
    else elim (heads rest) [ raised code ↦ raised code | returned bytes ↦ returned (b ∷ bytes) ]

pub checked_sliver : Bytes → Answer (Unit {0})
checked_sliver [] = raised (some "invalid_sliver_bcs")
checked_sliver (b ∷ bs) = if b == 9 then raised (some "merkle_root_mismatch") else returned tt

abbrev pub decoder : Native ℕ Bytes
decoder = record {
  redstuff_encode = λ content n. raised none;
  redstuff_verify_metadata = λ bcs n. returned bcs;
  redstuff_verify_sliver = λ sliver handle axis. checked_sliver sliver;
  redstuff_decode_and_verify = λ slivers handle axis. heads slivers;
  redstuff_decode = λ slivers size n axis. heads slivers;
  handle_blob_id = λ handle. handle;
  handle_unencoded_length = λ handle. 0;
  handle_n_shards = λ handle. 5;
}

reconstructed :
    reconstruct_blob decoder metadata primary read_sliver read_sliver one_by_one one_by_one
      committee blob_id 2 true
    ≡ some (ok (2 ∷ 4 ∷ [], 2))
unfolding reconstruct_blob among decode_attributed decode_blob partition_by_verification
    verify_sliver merge_distinct heads checked_sliver fetch_slivers_attributed fan_out_to_committee
    first_done asked fold_node fetch_node_slivers shard_index_to_pair_index read_sliver
    from_bytes_big
reconstructed = refl

reconstruct_blob-IsDecoded_example :
    IsDecoded decoder metadata primary read_sliver read_sliver one_by_one one_by_one one_by_one_laws
      one_by_one_laws committee blob_id 2 true
      (2 ∷ 4 ∷ [])
      2
reconstruct_blob-IsDecoded_example =
    reconstruct_blob-IsDecoded decoder metadata primary read_sliver read_sliver one_by_one
      one_by_one one_by_one_laws one_by_one_laws committee blob_id 2 true reconstructed

without_b :
    fetch_slivers_attributed read_sliver blob_id primary one_by_one committee 2 ("b" ∷ [])
    ≡ some (ok ((9 ∷ [], "a") ∷ (4 ∷ [], "c") ∷ []))
unfolding fetch_slivers_attributed fan_out_to_committee first_done asked fold_node
    fetch_node_slivers shard_index_to_pair_index read_sliver from_bytes_big
without_b = refl

fetch_slivers_attributed_excludes_example :
    All
      (λ (p : Bytes × String). contains_str (p.1) ("b" ∷ []) ≡ false)
      ((9 ∷ [], "a") ∷ (4 ∷ [], "c") ∷ [])
fetch_slivers_attributed_excludes_example =
    fetch_slivers_attributed_excludes read_sliver blob_id primary one_by_one one_by_one_laws
      committee 2 ("b" ∷ []) without_b
