-- ===== src/NativeUpload/Confirm.antt =====
-- collect_confirmations and _confirm_node of pytusk/core/native_upload/confirm.py, and
-- pytusk/core/encoding/object_ids.py. What a node answers to ReadStorageConfirmation is the parameter
-- `read_confirmation`, the waits of the fan-out are `loop`, and Python's bytes.fromhex is `fromhex`. The
-- epoch and n_shards are not negative; the counters and reasons that only log lines show are left out.

pub mod Usable
pub mod Collected
use Prim.Native.String.{len, slice}
use text.Mathlib.Text.{starts_with}
use pytusk.Prelude.{
  ℕ, ◌+◌, String, Bool, true, false, not, ◌||◌, Option, none, some, List, [], ◌∷◌, ◌++◌, length,
  leb, ◌==◌, if◌then◌else◌,
}
use pytusk.Prelude.Int.{ℤ, pos_part}
use pytusk.Prelude.Bytes.{Bytes}
use pytusk.Errors.{
  Error, Result, ok, err, value_error, cancelled, quorum_not_reached, confirmation_mismatch,
  invalid_confirmation, confirmation_collection, raise_if, ◌>>=◌, ◌>>◌,
}
use pytusk.Certification.Quorum.{min_weight_for_quorum}
use pytusk.Certification.Certificate.{
  NodeConfirmation, Certificate, Bls, is_empty, confirmation_message, build_certificate,
}
use pytusk.Committee.Members.{
  WalrusCommitteeMember, WalrusCommittee, committee_size, position_of, member_at,
}
use pytusk.CommitteeFanout.{EventLoop, Fanned, fan_out_to_committee}

pub record Registration : Type 0 where
  pub object_id : String
  pub registered_blob_id : Bytes
  pub end_epoch : ℕ
  pub deletable : Bool
  pub digest : String

-- A node's answer: a signed message, a failure with its text, or an exception.
pub data SignedAnswer : Type 0 where
  signed : Bytes → Bytes → SignedAnswer
  failed raised : String → SignedAnswer

-- The object ID without its `0x`.
abbrev pub hex_digits : String → String
hex_digits object_id =
    if starts_with object_id "0x" || starts_with object_id "0X"
    then slice object_id 2 (len object_id)
    else object_id

unfoldable pub object_id_to_raw_bytes : (String → Result Bytes) → String → Result Bytes
object_id_to_raw_bytes fromhex object_id = elim (fromhex (hex_digits object_id)) [
  | err e ↦ err value_error
  | ok decoded ↦ do raise_if (not (length decoded == 32)) value_error; ok decoded
]

unfoldable pub object_id_bytes : (String → Result Bytes) → Registration → Result (Option Bytes)
unfolding object_id_to_raw_bytes
object_id_bytes fromhex registration =
    if registration.deletable
    then (do raw ← object_id_to_raw_bytes fromhex registration.object_id; ok (some raw))
    else ok none

-- The object ID in the request: the string, for a deletable blob.
abbrev pub requested_object : Registration → Option String
requested_object registration =
    if registration.deletable then some (registration.object_id) else none

members_at : List WalrusCommitteeMember → List ℤ → Result (List WalrusCommitteeMember)
members_at members [] = ok []
members_at members (position ∷ positions) = do
  m ← member_at members position
  ms ← members_at members positions
  ok (m ∷ ms)

unfoldable pub confirmation_candidates :
    WalrusCommittee → Option (List ℤ) → Result (List WalrusCommitteeMember)
unfolding members_at
confirmation_candidates committee none = ok (committee.members)
confirmation_candidates committee (some positions) = members_at committee.members positions

-- The variables that `_fold` changes.
pub record Confirmed : Type 0 where
  pub confirmations : List NodeConfirmation
  pub weight_confirmed : ℕ

abbrev pub none_confirmed : Confirmed
none_confirmed = record { confirmations = []; weight_confirmed = 0 }

abbrev pub has_enough : ℕ → Confirmed → Bool
has_enough required_weight confirmed = leb required_weight confirmed.weight_confirmed

-- `_cancelled`
abbrev pub confirmation_cancelled : Confirmed → WalrusCommitteeMember → Confirmed
confirmation_cancelled confirmed member = confirmed

-- The three exceptions that become a ConfirmationCollectionError.
unfoldable pub wrap_error : Error → Error
wrap_error quorum_not_reached = confirmation_collection
wrap_error confirmation_mismatch = confirmation_collection
wrap_error invalid_confirmation = confirmation_collection
wrap_error e = e

unfoldable pub or_wrapped : Result Certificate → Result Certificate
unfolding wrap_error
or_wrapped (ok certificate) = ok certificate
or_wrapped (err e) = err (wrap_error e)

-- The end of collect_confirmations, after the fan-out.
unfoldable pub certificate_from :
    Bls → WalrusCommittee → Bytes → Fanned WalrusCommitteeMember Confirmed → Result Certificate
unfolding or_wrapped
certificate_from bls committee expected_message out = do
  raise_if out.interrupted cancelled
  raise_if (is_empty out.acc.confirmations) confirmation_collection
  or_wrapped (
      build_certificate bls out.acc.confirmations (committee_size committee)
        (pos_part committee.n_shards) (some expected_message))

module _ (read_confirmation : WalrusCommitteeMember → Bytes → Option String → SignedAnswer)
    (committee : WalrusCommittee) (blob_id : Bytes) (registration : Registration) where
  -- _confirm_node and _confirmation_outcome_from_task: the confirmation, if there is one. A task that
  -- raises has none.
  unfoldable pub confirm_node : WalrusCommitteeMember → Option NodeConfirmation
  confirm_node member = elim (read_confirmation member blob_id (requested_object registration)) [
    | failed reason ↦ none
    | raised why ↦ none
    | signed serialized_message signature ↦ elim (position_of committee member.node_id) [
      | err e ↦ none
      | ok position ↦ some (record {
        node_id = member.node_id;
        position = position;
        weight = length member.shard_indices;
        public_key = member.public_key;
        serialized_message = serialized_message;
        signature = signature;
      })
    ]
  ]

  -- `_fold`
  unfoldable pub fold_confirmation : Confirmed → WalrusCommitteeMember → Confirmed
  fold_confirmation confirmed member = elim (confirm_node member) [
    | none ↦ confirmed
    | some c ↦ record {
      confirmations = confirmed.confirmations ++ c ∷ [];
      weight_confirmed = confirmed.weight_confirmed + c.weight;
    }
  ]

  module _ (bls : Bls) (fromhex : String → Result Bytes)
      (loop : EventLoop WalrusCommitteeMember) where
    -- The fan-out to the candidates; `none` stands for one that does not end.
    pub fan_out_confirmations :
        Bytes → Result (List WalrusCommitteeMember) → Option (Result Certificate)
    unfolding certificate_from fold_confirmation
    fan_out_confirmations expected_message (err e) = some (err e)
    fan_out_confirmations expected_message (ok members) =
        elim (fan_out_to_committee loop fold_confirmation confirmation_cancelled
          (has_enough (min_weight_for_quorum (pos_part committee.n_shards))) members
          none_confirmed) [
            | none ↦ none
            | some out ↦ some (certificate_from bls committee expected_message out)
          ]

    pub after_object_id : Option (List ℤ) → Result (Option Bytes) → Option (Result Certificate)
    unfolding fan_out_confirmations
    after_object_id positions (err e) = some (err e)
    after_object_id positions (ok object_id) =
        fan_out_confirmations
          (confirmation_message bls (pos_part committee.epoch) blob_id object_id)
          (confirmation_candidates committee positions)

    unfoldable pub collect_confirmations : Option (List ℤ) → Option (Result Certificate)
    unfolding after_object_id
    collect_confirmations positions =
        after_object_id positions (object_id_bytes fromhex registration)
