-- ===== src/Pipelines/Native/Stored.antt =====
-- What store_blob_native returns and raises (pytusk/core/pipelines/write.py).
use pytusk.Prelude.{ℕ, ◌≡◌, refl, String, true, false, Option, none, some, Bool-cases, inl, inr}
use pytusk.Prelude.Bytes.{Bytes}
use pytusk.Prelude.Int.{pos_part}
use pytusk.Errors.{Error, Result, ok, err, Result-cases}
use pytusk.Redstuff.Codec.{EncodedBlob, encode_blob}
use pytusk.Certification.Certificate.{Certificate}
use pytusk.Committee.Members.{WalrusCommittee}
use pytusk.CommitteeFanout.{EventLoopLaws}
use pytusk.NativeUpload.Node.{SliverPair}
use pytusk.NativeUpload.Slivers.{FanoutReport}
use pytusk.NativeUpload.Slivers.Quorum.{upload_slivers-ends}
use pytusk.NativeUpload.Confirm.{Registration}
use pytusk.NativeUpload.Confirm.Collected.{collect_confirmations-ends}
use pytusk.NativeUpload.Certify.{CertifyResult}
use pytusk.NativeUpload.Certify.Submitted.{certify-Certified}
use pytusk.Pipelines.Native.{
  NativeBlobReceipt, Registered, registered, pending, not_registered, World, is_native_upload_error,
  stage_of, as_native_error, as_context_error, failure_receipt, prepare_write, uploaded, confirmed,
  certified_with, deliver, failed_delivery, after_certify, after_deliver, after_tx1,
  store_blob_native,
}
use pytusk.Pipelines.Native.Raised.{
  UploadError, UploadError-stage_of, UploadError-is_native_upload_error, is_runtime_or_value,
  is_context_error, RaisedFor, as_native_error-RaisedFor, as_context_error-RaisedFor,
}

module _ {Handle : Type 0} (world : World Handle) (data_bytes : Bytes)
    (recipient : Option String) where
  -- A stage after Tx1 raised this error.
  pub data FailedAfter (committee : WalrusCommittee) (encoded : EncodedBlob SliverPair)
      (registration : Registration) (e : Error) : Type 0 where
    in_upload :
        uploaded world committee encoded ≡ some (err e)
        → FailedAfter committee encoded registration e
    in_confirmations :
        (report : FanoutReport)
        → uploaded world committee encoded ≡ some (ok report)
        → confirmed world committee encoded registration ≡ some (err e)
        → FailedAfter committee encoded registration e
    in_certify :
        (report : FanoutReport) (certificate : Certificate)
        → uploaded world committee encoded ≡ some (ok report)
        → confirmed world committee encoded registration ≡ some (ok certificate)
        → certified_with world committee encoded registration recipient certificate ≡ some (err e)
        → FailedAfter committee encoded registration e

  pub record IsPrepared (committee : WalrusCommittee) (encoded : EncodedBlob SliverPair)
      : Type 0 where
    pub resolved : world.context ≡ ok committee
    pub encodes : encode_blob world.native data_bytes (pos_part committee.n_shards) ≡ ok encoded

  -- How a write ends.
  pub data Stored : Result NativeBlobReceipt → Type 0 where
    no_context :
        (e raised : Error)
        → world.context ≡ err e
        → RaisedFor is_context_error e raised
        → Stored (err raised)
    not_encoded :
        (committee : WalrusCommittee) (e raised : Error)
        → world.context ≡ ok committee
        → encode_blob world.native data_bytes (pos_part committee.n_shards) ≡ err e
        → RaisedFor is_runtime_or_value e raised
        → Stored (err raised)
    no_tx1 :
        (committee : WalrusCommittee) (encoded : EncodedBlob SliverPair) (e raised : Error)
        → IsPrepared committee encoded
        → world.register encoded ≡ not_registered e
        → RaisedFor is_runtime_or_value e raised
        → Stored (err raised)
    unread :
        (committee : WalrusCommittee) (encoded : EncodedBlob SliverPair)
        (digest object_id stage : String)
        → IsPrepared committee encoded
        → world.register encoded ≡ pending digest object_id stage
        → Stored (
            ok (record {
              receipt_blob_id = encoded.blob_id;
              receipt_object_id = object_id;
              receipt_certified = false;
              receipt_end_epoch = none;
              failed_stage = some stage;
              register_tx_digest = some digest;
              certify_tx_digest = none;
            }))
    certified :
        (committee : WalrusCommittee) (encoded : EncodedBlob SliverPair)
        (registration : Registration) (report : FanoutReport) (certificate : Certificate)
        (result : CertifyResult)
        → IsPrepared committee encoded
        → world.register encoded ≡ registered registration
        → uploaded world committee encoded ≡ some (ok report)
        → confirmed world committee encoded registration ≡ some (ok certificate)
        → certified_with world committee encoded registration recipient certificate
          ≡ some (ok result)
        → Stored (
            ok (record {
              receipt_blob_id = encoded.blob_id;
              receipt_object_id = result.object_id;
              receipt_certified = result.certified;
              receipt_end_epoch = some (registration.end_epoch);
              failed_stage = none;
              register_tx_digest = some (registration.digest);
              certify_tx_digest = some (result.certify_digest);
            }))
    failed :
        (committee : WalrusCommittee) (encoded : EncodedBlob SliverPair)
        (registration : Registration) (e : Error) (stage : String)
        → IsPrepared committee encoded
        → world.register encoded ≡ registered registration
        → FailedAfter committee encoded registration e
        → UploadError e stage
        → Stored (
            ok (record {
              receipt_blob_id = encoded.blob_id;
              receipt_object_id = registration.object_id;
              receipt_certified = false;
              receipt_end_epoch = some (registration.end_epoch);
              failed_stage = some stage;
              register_tx_digest = some (registration.digest);
              certify_tx_digest = none;
            }))
    escaped :
        (committee : WalrusCommittee) (encoded : EncodedBlob SliverPair)
        (registration : Registration) (e : Error)
        → IsPrepared committee encoded
        → world.register encoded ≡ registered registration
        → FailedAfter committee encoded registration e
        → ((stage : String) → ¬ UploadError e stage)
        → Stored (err e)

  module _ (committee : WalrusCommittee) (encoded : EncodedBlob SliverPair)
      (registration : Registration) (ready : IsPrepared committee encoded)
      (tx1 : world.register encoded ≡ registered registration) where
    abbrev EndOf : Option (Result NativeBlobReceipt) → Type 0
    EndOf out = (r : Result NativeBlobReceipt) × (out ≡ some r) × Stored r

    failed_as :
        (e : Error)
        → FailedAfter committee encoded registration e
        → is_native_upload_error e ≡ true
        → Stored (ok (failure_receipt encoded registration (some e)))
    unfolding failure_receipt
    failed_as e how y =
        failed committee encoded registration e (stage_of e) ready tx1 how
          (UploadError-stage_of e y)

    escaped_as :
        (e : Error)
        → FailedAfter committee encoded registration e
        → is_native_upload_error e ≡ false
        → Stored (err e)
    escaped_as e how n =
        escaped committee encoded registration e ready tx1 how
          (λ stage u. cc (n, UploadError-is_native_upload_error u))

    failed_delivery-end :
        (e : Error)
        → FailedAfter committee encoded registration e
        → EndOf
            (after_deliver world committee encoded registration recipient (failed_delivery world e))
    failed_delivery-end e how = elim (Bool-cases (is_native_upload_error e)) [
      | inl y ↦ rw y (_, refl, failed_as e how y)
      | inr n ↦ rw n (_, refl, escaped_as e how n)
    ]

    after_certify-end :
        (report : FanoutReport) (certificate : Certificate) (r : Result CertifyResult)
        → uploaded world committee encoded ≡ some (ok report)
        → confirmed world committee encoded registration ≡ some (ok certificate)
        → certified_with world committee encoded registration recipient certificate ≡ some r
        → EndOf (after_certify world committee encoded registration (some r))
    after_certify-end report certificate (ok result) up conf cert = (
      _,
      refl,
      certified committee encoded registration report certificate result ready tx1 up conf cert,
    )
    after_certify-end report certificate (err e) up conf cert =
        elim (Bool-cases (is_native_upload_error e)) [
          | inl y ↦ rw y (_, refl, failed_as e (in_certify report certificate up conf cert) y)
          | inr n ↦ rw n (_, refl, escaped_as e (in_certify report certificate up conf cert) n)
        ]

    by_upload :
        (u : Result FanoutReport) (c : Result Certificate)
        → ((certificate : Certificate)
            → (r : Result CertifyResult) × (certified_with world committee encoded registration
                  recipient certificate
                ≡ some r))
        → uploaded world committee encoded ≡ some u
        → confirmed world committee encoded registration ≡ some c
        → EndOf (
            after_deliver world committee encoded registration recipient
              (deliver world committee encoded registration))
    unfolding deliver
    by_upload (err e) c certifies up conf = rw (up, deliver) (failed_delivery-end e (in_upload up))
    by_upload (ok report) (err e) certifies up conf =
        rw (up, conf, deliver) (failed_delivery-end e (in_confirmations report up conf))
    by_upload (ok report) (ok certificate) certifies up conf =
        let (r, cert) = certifies certificate in
        rw (up, conf, deliver) (rw cert (after_certify-end report certificate r up conf cert))

  -- Under the laws of the event loops, whatever the chain and the nodes answer: a write ends. Before Tx1 has
  -- succeeded it raises: a NativeUploadError for a ChainContextError of the context, and for a RuntimeError or a
  -- ValueError of the encoding or of Tx1, and any other error as it is. Afterwards it returns the receipt of
  -- certify's result, with both digests and no failed stage, when upload_slivers, collect_confirmations and certify
  -- have returned; an uncertified receipt with Tx1's digest, object and stage when Tx1 cannot be read back; and an
  -- uncertified receipt, with the registration's digest, object and end epoch and the stage that the error names, when a
  -- stage raises a NativeUploadError. Any other exception of a stage escapes, although Tx1 has succeeded.
  pub store_blob_native-Stored :
      EventLoopLaws world.upload_waits
      → EventLoopLaws world.confirm_waits
      → ((k : ℕ) → EventLoopLaws (world.outside.waits k))
      → (r : Result NativeBlobReceipt) × (store_blob_native world data_bytes recipient ≡ some r)
        × Stored r
  unfolding store_blob_native prepare_write after_tx1 uploaded confirmed certified_with
  store_blob_native-Stored upload_laws confirm_laws refetch_laws =
      elim (Result-cases world.context) [
        | inl (e, x) ↦ (
          err (as_context_error e),
          rw (x, store_blob_native) refl,
          no_context e _ x (as_context_error-RaisedFor e),
        )
        | inr (committee, x) ↦
            elim (Result-cases
              (encode_blob world.native data_bytes (pos_part committee.n_shards))) [
                | inl (e, y) ↦ (
                  err (as_native_error e),
                  rw (x, y, store_blob_native) refl,
                  not_encoded committee e _ x y (as_native_error-RaisedFor e),
                )
                | inr (encoded, y) ↦
                    let ready : IsPrepared committee encoded = record {
                      resolved = x;
                      encodes = y;
                    } in
                    let (r, e, how) =
                      by_tx1 committee encoded ready (world.register encoded) refl in
                    (r, rw (x, y, store_blob_native) e, how)
              ]
      ]
    where
      by_tx1 :
          (committee : WalrusCommittee) (encoded : EncodedBlob SliverPair)
          → IsPrepared committee encoded
          → (tx1 : Registered) → world.register encoded ≡ tx1
          → (r : Result NativeBlobReceipt) × (after_tx1 world committee encoded recipient tx1
              ≡ some r)
            × Stored r
      by_tx1 committee encoded ready (not_registered e) tx1 =
          (_, refl, no_tx1 committee encoded e _ ready tx1 (as_native_error-RaisedFor e))
      by_tx1 committee encoded ready (pending digest object_id stage) tx1 =
          (_, refl, unread committee encoded digest object_id stage ready tx1)
      by_tx1 committee encoded ready (registered registration) tx1 =
          let (u, up) =
            upload_slivers-ends world.client 5 encoded world.put_waits committee world.upload_waits
              upload_laws in
          let (c, conf) =
            collect_confirmations-ends world.read_confirmation committee encoded.blob_id
              registration world.libraries.bls world.libraries.fromhex world.confirm_waits
              confirm_laws in
          by_upload committee encoded registration ready tx1 u c
            (λ certificate.
              let (t, cert, how) =
                certify-Certified world.libraries world.outside registration encoded.blob_id
                  refetch_laws 2 recipient committee certificate in
              (t.outcome, rw cert refl))
            up conf
