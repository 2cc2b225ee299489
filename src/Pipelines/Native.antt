-- ===== src/Pipelines/Native.antt =====
-- store_blob_native and prepare_write of pytusk/core/pipelines/write.py, and NativeDelivery of
-- pytusk/core/pipelines/delivery.py. The record `World` has what the chain and the nodes answer; Tx1 is one of its
-- answers. A receipt has the raw blob ID in place of its base64 text, and no timings.
pub mod Raised
pub mod Stored
mod Runs
use pytusk.Prelude.{ℕ, String, Bool, true, false, Option, none, some, List, if◌then◌else◌}
use pytusk.Prelude.Int.{pos_part}
use pytusk.Prelude.Bytes.{Bytes}
use pytusk.Errors.{
  Error, Result, ok, err, runtime_error, value_error, native_error, blob_too_large, sliver_upload,
  confirmation_collection, epoch_mismatch, certify_transaction, native_upload, chain_context,
}
use pytusk.Redstuff.Codec.{Native, EncodedBlob, encode_blob}
use pytusk.Certification.Certificate.{Certificate}
use pytusk.Committee.Members.{WalrusCommitteeMember, WalrusCommittee}
use pytusk.CommitteeFanout.{EventLoop}
use pytusk.NativeUpload.Node.{SliverPair, PutSpec, ExecuteClient}
use pytusk.NativeUpload.Slivers.{FanoutReport, upload_slivers}
use pytusk.NativeUpload.Confirm.{Registration, SignedAnswer, collect_confirmations}
use pytusk.NativeUpload.Certify.{CertifyResult, Transacted, Libraries, Outside, certify}

pub record NativeBlobReceipt : Type 0 where
  pub receipt_blob_id : Bytes
  pub receipt_object_id : String
  pub receipt_certified : Bool
  pub receipt_end_epoch : Option ℕ
  pub failed_stage : Option String
  pub register_tx_digest : Option String
  pub certify_tx_digest : Option String

-- What comes of Tx1: a registration; a digest, an object ID and a stage, when it succeeded and cannot be
-- read back; or an exception.
pub data Registered : Type 0 where
  registered : Registration → Registered
  pending : String → String → String → Registered
  not_registered : Error → Registered

pub data DeliveryOutcome : Type 0 where
  delivered resumable refused : DeliveryOutcome

pub record NativeDeliveryResult : Type 0 where
  pub outcome : DeliveryOutcome
  pub certificate : Option Certificate
  pub error : Option Error

pub record World (Handle : Type 0) : Type 0 where
  pub native : Native SliverPair Handle
  pub context : Result WalrusCommittee
  pub register : EncodedBlob SliverPair → Registered
  pub client : ExecuteClient
  pub put_waits : WalrusCommitteeMember → EventLoop PutSpec
  pub upload_waits : EventLoop WalrusCommitteeMember
  pub read_confirmation : WalrusCommitteeMember → Bytes → Option String → SignedAnswer
  pub confirm_waits : EventLoop WalrusCommitteeMember
  pub libraries : Libraries
  pub outside : Outside

-- `except NativeUploadError`
abbrev pub is_native_upload_error : Error → Bool
is_native_upload_error sliver_upload = true
is_native_upload_error confirmation_collection = true
is_native_upload_error epoch_mismatch = true
is_native_upload_error certify_transaction = true
is_native_upload_error native_upload = true
is_native_upload_error _ = false

-- The `stage` of a NativeUploadError.
abbrev pub stage_of : Error → String
stage_of sliver_upload = "upload_slivers"
stage_of confirmation_collection = "collect_confirmations"
stage_of _ = "certify"

-- except (RuntimeError, ValueError): raise NativeUploadError
abbrev pub as_native_error : Error → Error
as_native_error runtime_error = native_upload
as_native_error value_error = native_upload
as_native_error (native_error code) = native_upload
as_native_error blob_too_large = native_upload
as_native_error e = e

-- except ChainContextError
abbrev pub as_context_error : Error → Error
as_context_error chain_context = native_upload
as_context_error e = e

abbrev pub or_else : {A : Type 0} → (Error → Error) → Result A → Result A
or_else handler (ok a) = ok a
or_else handler (err e) = err (handler e)

-- delivered.error.stage, or "deliver" without an error.
abbrev pub stage_or_deliver : Option Error → String
stage_or_deliver none = "deliver"
stage_or_deliver (some e) = stage_of e

unfoldable pub failure_receipt :
    EncodedBlob SliverPair → Registration → Option Error → NativeBlobReceipt
failure_receipt encoded registration e = record {
  receipt_blob_id = encoded.blob_id;
  receipt_object_id = registration.object_id;
  receipt_certified = false;
  receipt_end_epoch = some (registration.end_epoch);
  failed_stage = some (stage_or_deliver e);
  register_tx_digest = some (registration.digest);
  certify_tx_digest = none;
}

abbrev pub pending_receipt : EncodedBlob SliverPair → String → String → String → NativeBlobReceipt
pending_receipt encoded digest object_id stage = record {
  receipt_blob_id = encoded.blob_id;
  receipt_object_id = object_id;
  receipt_certified = false;
  receipt_end_epoch = none;
  failed_stage = some stage;
  register_tx_digest = some digest;
  certify_tx_digest = none;
}

abbrev pub certified_receipt : Bytes → Registration → CertifyResult → NativeBlobReceipt
certified_receipt blob_id registration result = record {
  receipt_blob_id = blob_id;
  receipt_object_id = result.object_id;
  receipt_certified = result.certified;
  receipt_end_epoch = some (registration.end_epoch);
  failed_stage = none;
  register_tx_digest = some (registration.digest);
  certify_tx_digest = some (result.certify_digest);
}

module _ {Handle : Type 0} (world : World Handle) where
  unfoldable pub prepare_write : Bytes → Result (WalrusCommittee × EncodedBlob SliverPair)
  prepare_write data_bytes = elim (or_else as_context_error world.context) [
    | err e ↦ err e
    | ok committee ↦
        elim (or_else as_native_error
          (encode_blob world.native data_bytes (pos_part committee.n_shards))) [
            | err e ↦ err e
            | ok encoded ↦ ok (committee, encoded)
          ]
  ]

  abbrev failed_delivery : Error → Option (Result NativeDeliveryResult)
  failed_delivery e =
      if is_native_upload_error e
      then some (ok (record { outcome = resumable; certificate = none; error = some e }))
      else some (err e)

  module _ (committee : WalrusCommittee) (encoded : EncodedBlob SliverPair) where
    unfoldable pub uploaded : Option (Result FanoutReport)
    uploaded = upload_slivers world.client 5 encoded world.put_waits committee world.upload_waits

    module _ (registration : Registration) where
      unfoldable pub confirmed : Option (Result Certificate)
      confirmed =
          collect_confirmations world.read_confirmation committee encoded.blob_id registration
            world.libraries.bls world.libraries.fromhex world.confirm_waits none

      abbrev outcome_of : Option Transacted → Option (Result CertifyResult)
      outcome_of none = none
      outcome_of (some t) = some t.outcome

      unfoldable pub certified_with : Option String → Certificate → Option (Result CertifyResult)
      certified_with recipient certificate = outcome_of (
          certify world.libraries world.outside registration encoded.blob_id 2 recipient committee
            certificate)

      abbrev after_confirmed : Option (Result Certificate) → Option (Result NativeDeliveryResult)
      after_confirmed none = none
      after_confirmed (some (err e)) = failed_delivery e
      after_confirmed (some (ok certificate)) =
          some (ok (record { outcome = delivered; certificate = some certificate; error = none }))

      unfoldable pub deliver : Option (Result NativeDeliveryResult)
      unfolding uploaded confirmed
      deliver = elim uploaded [
        | none ↦ none
        | some (err e) ↦ failed_delivery e
        | some (ok report) ↦ after_confirmed confirmed
      ]

      -- The result of certify, as a receipt.
      abbrev after_certify : Option (Result CertifyResult) → Option (Result NativeBlobReceipt)
      after_certify none = none
      after_certify (some (ok result)) =
          some (ok (certified_receipt encoded.blob_id registration result))
      after_certify (some (err e)) =
          if is_native_upload_error e
          then some (ok (failure_receipt encoded registration (some e)))
          else some (err e)

      -- delivered.require_certificate()
      abbrev certify_delivered :
          Option String → Option Certificate → Option (Result NativeBlobReceipt)
      certify_delivered recipient none = some (err runtime_error)
      certify_delivered recipient (some certificate) =
          after_certify (certified_with recipient certificate)

      abbrev after_deliver :
          Option String → Option (Result NativeDeliveryResult) → Option (Result NativeBlobReceipt)
      after_deliver recipient none = none
      after_deliver recipient (some (err e)) = some (err e)
      after_deliver recipient (some (ok result)) = elim (result.outcome) [
        | delivered ↦ certify_delivered recipient (result.certificate)
        | resumable ↦ some (ok (failure_receipt encoded registration (result.error)))
        | refused ↦ some (ok (failure_receipt encoded registration (result.error)))
      ]

    unfoldable pub after_tx1 : Option String → Registered → Option (Result NativeBlobReceipt)
    unfolding deliver certified_with failure_receipt
    after_tx1 recipient (not_registered e) = some (err (as_native_error e))
    after_tx1 recipient (pending digest object_id stage) =
        some (ok (pending_receipt encoded digest object_id stage))
    after_tx1 recipient (registered registration) =
        after_deliver registration recipient (deliver registration)

  unfoldable pub store_blob_native : Bytes → Option String → Option (Result NativeBlobReceipt)
  unfolding prepare_write after_tx1
  store_blob_native data_bytes recipient = elim (prepare_write data_bytes) [
    | err e ↦ some (err e)
    | ok (committee, encoded) ↦ after_tx1 committee encoded recipient (world.register encoded)
  ]
