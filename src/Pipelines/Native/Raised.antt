-- ===== src/Pipelines/Native/Raised.antt =====
-- Which exceptions the handlers of pytusk/core/pipelines/write.py catch, what they raise for them, and the stages that
-- these name.
use pytusk.Prelude.{◌≡◌, refl, String, Bool, true, false}
use pytusk.Errors.{
  Error, runtime_error, value_error, native_error, blob_too_large, chain_context, sliver_upload,
  confirmation_collection, epoch_mismatch, certify_transaction, native_upload,
}
use pytusk.Pipelines.Native.{is_native_upload_error, stage_of, as_native_error, as_context_error}

-- The NativeUploadErrors, with the stages that they name.
pub data UploadError : Error → String → Type 0 where
  in_slivers : UploadError sliver_upload "upload_slivers"
  without_quorum : UploadError confirmation_collection "collect_confirmations"
  in_epoch : UploadError epoch_mismatch "certify"
  in_tx2 : UploadError certify_transaction "certify"
  other : UploadError native_upload "certify"

pub UploadError-stage_of :
    (e : Error) → is_native_upload_error e ≡ true → UploadError e (stage_of e)
UploadError-stage_of sliver_upload h = in_slivers
UploadError-stage_of confirmation_collection h = without_quorum
UploadError-stage_of epoch_mismatch h = in_epoch
UploadError-stage_of certify_transaction h = in_tx2
UploadError-stage_of native_upload h = other
UploadError-stage_of _ h = cc

pub UploadError-is_native_upload_error :
    {e : Error} {stage : String} → UploadError e stage → is_native_upload_error e ≡ true
UploadError-is_native_upload_error in_slivers = refl
UploadError-is_native_upload_error without_quorum = refl
UploadError-is_native_upload_error in_epoch = refl
UploadError-is_native_upload_error in_tx2 = refl
UploadError-is_native_upload_error other = refl

-- What Python's `except (RuntimeError, ValueError)` and `except ChainContextError` make of an error before Tx1.
abbrev pub is_runtime_or_value : Error → Bool
is_runtime_or_value runtime_error = true
is_runtime_or_value value_error = true
is_runtime_or_value (native_error code) = true
is_runtime_or_value blob_too_large = true
is_runtime_or_value _ = false

abbrev pub is_context_error : Error → Bool
is_context_error chain_context = true
is_context_error _ = false

pub data RaisedFor (is_caught : Error → Bool) (e : Error) : Error → Type 0 where
  caught : is_caught e ≡ true → RaisedFor is_caught e native_upload
  passed : is_caught e ≡ false → RaisedFor is_caught e e

pub as_native_error-RaisedFor : (e : Error) → RaisedFor is_runtime_or_value e (as_native_error e)
as_native_error-RaisedFor runtime_error = caught refl
as_native_error-RaisedFor value_error = caught refl
as_native_error-RaisedFor (native_error code) = caught refl
as_native_error-RaisedFor blob_too_large = caught refl
as_native_error-RaisedFor _ = passed refl

pub as_context_error-RaisedFor : (e : Error) → RaisedFor is_context_error e (as_context_error e)
as_context_error-RaisedFor chain_context = caught refl
as_context_error-RaisedFor _ = passed refl
