-- ===== src/NativeUpload/Certify.antt =====
-- pytusk/core/native_upload/certify.py, with submit_certification and execute_certify of
-- pytusk/core/ops/blob_execute.py, add_certify of pytusk/core/ops/blob_compose.py and require_success of
-- pytusk/core/chain/effects.py. The record `Outside` has what the chain and the nodes answer, numbered by the
-- checks of the loop. The sender, the sponsor, the timings and the rest of the receipt are left out.
pub mod Current
pub mod Submitted
mod Runs
use pytusk.Prelude.{
  ℕ, zero, suc, ◌+◌, ◌-◌, String, Bool, true, false, not, Option, none, some, List, [], ◌∷◌,
  get_elem?, ◌==◌, if◌then◌else◌,
}
use pytusk.Prelude.Int.{ℤ, pos, negsuc}
use pytusk.Prelude.Bytes.{Bytes}
use pytusk.Errors.{
  Error, Result, ok, err, index_error, runtime_error, value_error, native_error, epoch_mismatch,
  certify_transaction, raise_if, ◌>>=◌, ◌>>◌,
}
use pytusk.Certification.Certificate.{Certificate, Bls, verify_certificate}
use pytusk.Committee.Json.{JsonDict, staking_epoch}
use pytusk.Committee.Members.{WalrusCommitteeMember, WalrusCommittee}
use pytusk.Committee.Build.{Pools, build_committee}
use pytusk.CommitteeFanout.{EventLoop}
use pytusk.NativeUpload.Confirm.{Registration, SignedAnswer, collect_confirmations}

-- int == int
abbrev pub int_eq : ℤ → ℤ → Bool
int_eq (pos m) (pos n) = m == n
int_eq (pos m) (negsuc n) = false
int_eq (negsuc m) (pos n) = false
int_eq (negsuc m) (negsuc n) = m == n

-- The commands of the transaction: certify_blob with the blob's object ID, the aggregate signature, the
-- signers' bitmap and the message; and the transfer of the blob.
pub data Command : Type 0 where
  certify_blob : String → Bytes → Bytes → Bytes → Command
  transfer_objects : String → String → Command

-- What comes of a transaction: it cannot be built, the submission fails, or it has the status of its
-- effects, if there is one, and a digest.
pub data Submission : Type 0 where
  not_built not_submitted : Submission
  executed : Option Bool → String → Submission

pub record CertifyResult : Type 0 where
  pub object_id : String
  pub certified_blob_id : Bytes
  pub certified : Bool
  pub certify_digest : String

-- What a call does: the transactions that it submits, and its result.
pub record Transacted : Type 0 where
  pub sent : List (List Command)
  pub outcome : Result CertifyResult

-- An exception before any transaction.
abbrev pub refused_with : Error → Transacted
refused_with e = record { sent = []; outcome = err e }

-- What the chain and the nodes answer: the staking object at the n-th check of the epoch, the staking
-- object and the pools of the refetch after it, the nodes' confirmations then, and the transaction.
pub record Outside : Type 0 where
  pub staking_at_check : ℕ → Result JsonDict
  pub staking_at_refetch : ℕ → Result JsonDict
  pub pools_at_refetch : ℕ → JsonDict → Result Pools
  pub read_confirmation : ℕ → WalrusCommitteeMember → Bytes → Option String → SignedAnswer
  pub waits : ℕ → EventLoop WalrusCommitteeMember
  pub submit : List Command → Submission

-- The functions of Python and of the extension that are used.
pub record Libraries : Type 0 where
  pub bls : Bls
  pub fromhex : String → Result Bytes
  pub b64decode : String → Result Bytes

-- The check of an epoch that has been read.
unfoldable pub assert_certificate_epoch_current : Result ℤ → WalrusCommittee → Result (Unit {0})
assert_certificate_epoch_current current committee = do
  current_epoch ← current
  raise_if (not (int_eq current_epoch committee.epoch)) epoch_mismatch

unfoldable pub signer_public_keys : List WalrusCommitteeMember → List ℕ → Result (List Bytes)
signer_public_keys members [] = ok []
signer_public_keys members (position ∷ positions) = elim (get_elem? members position) [
  | none ↦ err index_error
  | some m ↦ do keys ← signer_public_keys members positions; ok (m.public_key ∷ keys)
]

unfoldable pub add_certify : String → Certificate → Option String → List Command
add_certify blob_object_id certificate recipient =
    certify_blob blob_object_id certificate.aggregate_signature certificate.signers_bitmap
      certificate.serialized_message
    ∷ elim recipient [ none ↦ [] | some address ↦ transfer_objects blob_object_id address ∷ [] ]

-- The status of the effects, which may have none.
abbrev pub require_success : Option Bool → Result (Unit {0})
require_success (some true) = ok tt
require_success (some false) = err runtime_error
require_success none = err runtime_error

-- except (RuntimeError, ValueError); a native_error is a ValueError. The exceptions of the upload stages,
-- which are RuntimeErrors too, are none that execute_certify raises.
abbrev pub certify_error : Error → Error
certify_error runtime_error = certify_transaction
certify_error value_error = certify_transaction
certify_error (native_error code) = certify_transaction
certify_error e = e

abbrev pub or_certify_error : Result CertifyResult → Result CertifyResult
or_certify_error (ok result) = ok result
or_certify_error (err e) = err (certify_error e)

module _ (libraries : Libraries) (outside : Outside) (registration : Registration) where
  abbrev after_submit : Submission → Result CertifyResult
  after_submit not_built = err value_error
  after_submit not_submitted = err runtime_error
  after_submit (executed status digest) = do
    require_success status
    ok (record {
      object_id = registration.object_id;
      certified_blob_id = registration.registered_blob_id;
      certified = true;
      certify_digest = digest;
    })

  -- A transaction that cannot be built is not submitted.
  abbrev sent_by : List Command → Submission → List (List Command)
  sent_by commands not_built = []
  sent_by commands not_submitted = commands ∷ []
  sent_by commands (executed status digest) = commands ∷ []

  unfoldable pub execute_certify : Option String → Certificate → Transacted
  unfolding add_certify
  execute_certify recipient certificate =
      let commands = add_certify registration.object_id certificate recipient in
      record {
        sent = sent_by commands (outside.submit commands);
        outcome = after_submit (outside.submit commands);
      }

  abbrev transacted : Transacted → Transacted
  transacted t = record { sent = t.sent; outcome = or_certify_error t.outcome }

  unfoldable pub submit_certification : Option String → WalrusCommittee → Certificate → Transacted
  unfolding execute_certify
  submit_certification recipient committee certificate =
      elim (signer_public_keys committee.members certificate.signer_positions) [
        | err e ↦ refused_with e
        | ok keys ↦
            if not (verify_certificate libraries.bls certificate keys)
            then refused_with certify_transaction
            else transacted (execute_certify recipient certificate)
      ]

  unfoldable pub fetch_epoch : ℕ → Result ℤ
  fetch_epoch attempts = do
    staking_inner ← outside.staking_at_check attempts
    staking_epoch staking_inner

  unfoldable pub fetch_committee : ℕ → Result WalrusCommittee
  fetch_committee attempts = do
    staking_inner ← outside.staking_at_refetch attempts
    pools ← outside.pools_at_refetch attempts staking_inner
    build_committee libraries.b64decode pools staking_inner

  module _ (blob_id : Bytes) where
    unfoldable pub collect : ℕ → WalrusCommittee → Option (Result Certificate)
    collect attempts committee =
        collect_confirmations (outside.read_confirmation attempts) committee blob_id registration
          libraries.bls libraries.fromhex (outside.waits attempts) none

    abbrev with_certificate :
        WalrusCommittee
        → Option (Result Certificate)
        → Option (Result (WalrusCommittee × Certificate))
    with_certificate committee none = none
    with_certificate committee (some (err e)) = some (err e)
    with_certificate committee (some (ok certificate)) = some (ok (committee, certificate))

    -- What the loop goes on with when the epoch has moved on.
    unfoldable pub refetch : ℕ → Option (Result (WalrusCommittee × Certificate))
    unfolding fetch_committee collect
    refetch attempts = elim (fetch_committee attempts) [
      | err e ↦ some (err e)
      | ok committee ↦ with_certificate committee (collect attempts committee)
    ]

    -- `while True: …`, with the checks that are left after this one: none when attempts >= max_attempts.
    -- `none` stands for a collection of confirmations that does not end.
    unfoldable pub checked :
        ℕ → ℕ → WalrusCommittee → Certificate → Option (Result (WalrusCommittee × Certificate))
    unfolding fetch_epoch refetch
    checked zero attempts committee certificate = elim (fetch_epoch attempts) [
      | err e ↦ some (err e)
      | ok current_epoch ↦
          if int_eq current_epoch committee.epoch
          then some (ok (committee, certificate))
          else some (err epoch_mismatch)
    ]
    checked (suc left) attempts committee certificate = elim (fetch_epoch attempts) [
      | err e ↦ some (err e)
      | ok current_epoch ↦ elim (int_eq current_epoch committee.epoch) [
        | true ↦ some (ok (committee, certificate))
        | false ↦ elim (refetch attempts) [
          | none ↦ none
          | some (err e) ↦ some (err e)
          | some (ok (new_committee, new_certificate)) ↦
              checked left (attempts + 1) new_committee new_certificate
        ]
      ]
    ]

    unfoldable pub certify : ℕ → Option String → WalrusCommittee → Certificate → Option Transacted
    unfolding submit_certification checked
    certify max_attempts recipient committee certificate =
        elim (checked (max_attempts - 1) 0 committee certificate) [
          | none ↦ none
          | some (err e) ↦ some (refused_with e)
          | some (ok (current_committee, current_certificate)) ↦
              some (submit_certification recipient current_committee current_certificate)
        ]
