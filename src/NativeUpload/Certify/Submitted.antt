-- ===== src/NativeUpload/Certify/Submitted.antt =====
-- What certify submits (pytusk/core/native_upload/certify.py).
use pytusk.Prelude.{
  ℕ, ◌-◌, ◌≤◌, ◌≡◌, refl, subst, ap, ◌∙◌, String, true, false, Option, none, some, List, [], ◌∷◌,
  ◌≢◌, Bool, sym, get_elem?, Option-cases, arith, Bool-cases, inl, inr,
}
use pytusk.Prelude.Bytes.{Bytes}
use pytusk.Errors.{Error, Result, ok, err, certify_transaction, index_error, Result-cases}
use pytusk.Certification.Certificate.{Certificate, verify_certificate}
use pytusk.Committee.Members.{WalrusCommitteeMember, WalrusCommittee}
use pytusk.CommitteeFanout.{EventLoopLaws}
use pytusk.NativeUpload.Confirm.{Registration}
use pytusk.NativeUpload.Certify.{
  Command, certify_blob, transfer_objects, Submission, not_built, not_submitted, executed,
  Transacted, refused_with, transacted, sent_by, after_submit, Outside, Libraries,
  signer_public_keys, add_certify, execute_certify, submit_certification, checked, certify,
}
use pytusk.NativeUpload.Certify.Current.{epoch_at, Came, given, Looped, fresh, checked-Looped}

-- The commands of the one transaction, written out.
abbrev pub transfer_of : String → Option String → List Command
transfer_of object_id none = []
transfer_of object_id (some address) = transfer_objects object_id address ∷ []

abbrev pub transaction : String → Option String → Certificate → List Command
transaction object_id recipient c =
    certify_blob object_id c.aggregate_signature c.signers_bitmap c.serialized_message
    ∷ transfer_of object_id recipient

-- How a transaction can fail, with the transactions that are submitted then.
pub data Failed (commands : List Command) : Submission → List (List Command) → Type 0 where
  unbuilt : Failed commands not_built []
  unsubmitted : Failed commands not_submitted (commands ∷ [])
  aborted :
      (status : Option Bool) (digest : String)
      → status ≢ some true
      → Failed commands (executed status digest) (commands ∷ [])

module _ (libraries : Libraries) (outside : Outside) (registration : Registration)
    (blob_id : Bytes) where
  -- A certificate of the committee whose epoch was read last, of signers whose keys verify it.
  pub record IsReady (committee : WalrusCommittee) (certificate : Certificate) (last : ℕ)
      (cert : Certificate) : Type 0 where
    pub checks : ℕ
    pub within : checks ≤ last
    pub members_then : WalrusCommittee
    pub came :
        Came libraries outside registration blob_id committee certificate checks members_then cert
    pub current : epoch_at libraries outside registration blob_id checks ≡ ok members_then.epoch
    pub keys : List Bytes
    pub signed_by : signer_public_keys members_then.members cert.signer_positions ≡ ok keys
    pub verified : verify_certificate libraries.bls cert keys ≡ true

  -- How certify ends, and what it submits: one transaction for a certificate that is ready, or nothing.
  pub data Certified (committee : WalrusCommittee) (certificate : Certificate) (last : ℕ)
      (recipient : Option String) (out : Transacted) : Type 0 where
    submitted :
        (cert : Certificate) (digest : String)
        → IsReady committee certificate last cert
        → outside.submit (transaction registration.object_id recipient cert)
          ≡ executed (some true) digest
        → out.sent ≡ transaction registration.object_id recipient cert ∷ []
        → out.outcome
          ≡ ok (record {
            object_id = registration.object_id;
            certified_blob_id = registration.registered_blob_id;
            certified = true;
            certify_digest = digest;
          })
        → Certified committee certificate last recipient out
    not_executed :
        (cert : Certificate)
        → IsReady committee certificate last cert
        → Failed
            (transaction registration.object_id recipient cert)
            (outside.submit (transaction registration.object_id recipient cert))
            out.sent
        → out.outcome ≡ err certify_transaction
        → Certified committee certificate last recipient out
    not_verified :
        (k : ℕ) (c : WalrusCommittee) (cert : Certificate) (keys : List Bytes)
        → Came libraries outside registration blob_id committee certificate k c cert
        → signer_public_keys c.members cert.signer_positions ≡ ok keys
        → verify_certificate libraries.bls cert keys ≡ false
        → out.sent ≡ []
        → out.outcome ≡ err certify_transaction
        → Certified committee certificate last recipient out
    no_key :
        (k : ℕ) (c : WalrusCommittee) (cert : Certificate)
        → Came libraries outside registration blob_id committee certificate k c cert
        → signer_public_keys c.members cert.signer_positions ≡ err index_error
        → out.sent ≡ []
        → out.outcome ≡ err index_error
        → Certified committee certificate last recipient out
    given_up :
        (e : Error)
        → Looped libraries outside registration blob_id committee certificate last (err e)
        → out.sent ≡ []
        → out.outcome ≡ err e
        → Certified committee certificate last recipient out

  keys-index_error :
      (members : List WalrusCommitteeMember) (ps : List ℕ) (e : Error)
      → signer_public_keys members ps ≡ err e
      → e ≡ index_error
  unfolding signer_public_keys
  keys-index_error members [] e h = cc
  keys-index_error members (p ∷ ps) e h = elim (Option-cases (get_elem? members p)) [
    | inl n ↦ cc (rw (n, signer_public_keys) at h)
    | inr (m, y) ↦ elim (Result-cases (signer_public_keys members ps)) [
      | inl (f, z) ↦
          let same : f ≡ e = cc (rw (y, z, signer_public_keys) at h) in
          sym same ∙ keys-index_error members ps f z
      | inr (keys, z) ↦ cc (rw (y, z, signer_public_keys) at h)
    ]
  ]

  add_certify-transaction :
      (recipient : Option String) (cert : Certificate)
      → add_certify registration.object_id cert recipient
        ≡ transaction registration.object_id recipient cert
  unfolding add_certify
  add_certify-transaction none cert = refl
  add_certify-transaction (some address) cert = refl

  abbrev answered : List Command → Submission → Transacted
  answered commands answer = transacted libraries outside registration (record {
    sent = sent_by libraries outside registration commands answer;
    outcome = after_submit libraries outside registration answer;
  })

  execute_certify-answered :
      (recipient : Option String) (cert : Certificate)
      → transacted libraries outside registration
          (execute_certify libraries outside registration recipient cert)
        ≡ answered
            (transaction registration.object_id recipient cert)
            (outside.submit (transaction registration.object_id recipient cert))
  unfolding execute_certify
  execute_certify-answered recipient cert =
      ap (λ commands. answered commands (outside.submit commands))
        (add_certify-transaction recipient cert)

  -- A transaction for a certificate that is ready.
  answered-Certified :
      (committee : WalrusCommittee) (certificate : Certificate) (last : ℕ)
      (recipient : Option String) (cert : Certificate) (answer : Submission)
      → IsReady committee certificate last cert
      → outside.submit (transaction registration.object_id recipient cert) ≡ answer
      → Certified committee certificate last recipient
          (answered (transaction registration.object_id recipient cert) answer)
  answered-Certified committee certificate last recipient cert not_built ready e =
      not_executed cert ready (rw e unbuilt) refl
  answered-Certified committee certificate last recipient cert not_submitted ready e =
      not_executed cert ready (rw e unsubmitted) refl
  answered-Certified committee certificate last recipient cert (executed (some true) digest) ready
        e =
      submitted cert digest ready e refl refl
  answered-Certified committee certificate last recipient cert (executed (some false) digest) ready
        e =
      not_executed cert ready (rw e (aborted (some false) digest (λ h. cc))) refl
  answered-Certified committee certificate last recipient cert (executed none digest) ready e =
      not_executed cert ready (rw e (aborted none digest (λ h. cc))) refl

  submit_certification-Certified :
      (committee : WalrusCommittee) (certificate : Certificate) (last : ℕ)
      (recipient : Option String) (k : ℕ) (c : WalrusCommittee) (cert : Certificate)
      → k ≤ last
      → Came libraries outside registration blob_id committee certificate k c cert
      → epoch_at libraries outside registration blob_id k ≡ ok c.epoch
      → Certified committee certificate last recipient
          (submit_certification libraries outside registration recipient c cert)
  unfolding submit_certification
  submit_certification-Certified committee certificate last recipient k c cert le came current =
      elim (Result-cases (signer_public_keys c.members cert.signer_positions)) [
        | inl (e, y) ↦
            let which = keys-index_error c.members cert.signer_positions e y in
            rw (y, submit_certification)
              (no_key k c cert came (y ∙ ap err which) refl (ap err which))
        | inr (keys, y) ↦ elim (Bool-cases (verify_certificate libraries.bls cert keys)) [
          | inr bad ↦
              rw (y, submit_certification)
                (rw bad (not_verified k c cert keys came y bad refl refl))
          | inl good ↦
              let ready : IsReady committee certificate last cert = record {
                checks = k;
                within = le;
                members_then = c;
                came = came;
                current = current;
                keys = keys;
                signed_by = y;
                verified = good;
              } in
              rw (y, submit_certification)
                (rw good (
                  subst (Certified committee certificate last recipient)
                    (sym (execute_certify-answered recipient cert))
                    (answered-Certified committee certificate last recipient cert _ ready refl)))
        ]
      ]

  -- Under the laws of the event loop, whatever the chain and the nodes answer: certify ends, after
  -- max_attempts checks of the epoch at most (and one at least). It submits one transaction, with certify_blob for
  -- the certificate and the transfer that was asked for, or none. It submits one only if the epoch that it read
  -- last is that of the certificate's committee, and the keys of its signers there have verified it;
  -- this is the committee and the certificate that it was given, or else a committee that it refetched
  -- and the certificate collected from that very committee. It returns a result with the transaction's digest
  -- if this succeeds, and raises certify_transaction if it fails or cannot be built. It submits nothing and raises
  -- certify_transaction if the certificate does not verify, an IndexError if a signer is no member, and epoch_mismatch
  -- after its last check only, or the error of a read.
  pub certify-Certified :
      ((k : ℕ) → EventLoopLaws (outside.waits k))
      → (max_attempts : ℕ) (recipient : Option String) (committee : WalrusCommittee)
        (certificate : Certificate)
      → (out : Transacted) × (certify libraries outside registration blob_id max_attempts recipient
            committee certificate
          ≡ some out)
        × Certified committee certificate (max_attempts - 1) recipient out
  unfolding certify
  certify-Certified laws max_attempts recipient committee certificate =
      let last : ℕ = max_attempts - 1 in
      let (r, e, how) =
        checked-Looped libraries outside registration blob_id laws committee certificate last last 0
          committee certificate (omega arith) given in
      by_loop r e how
    where
      by_loop :
          (r : Result (WalrusCommittee × Certificate))
          → checked libraries outside registration blob_id
              (max_attempts - 1)
              0
              committee
              certificate
            ≡ some r
          → Looped libraries outside registration blob_id committee certificate (max_attempts - 1) r
          → (out : Transacted) × (certify libraries outside registration blob_id max_attempts
                recipient committee certificate
              ≡ some out)
            × Certified committee certificate (max_attempts - 1) recipient out
      by_loop (err raises) e how =
          (refused_with raises, rw (e, certify) refl, given_up raises how refl refl)
      by_loop (ok _) e (fresh k c cert epoch le came read same) = (
        submit_certification libraries outside registration recipient c cert,
        rw (e, certify) refl,
        submit_certification-Certified committee certificate (max_attempts - 1) recipient k c cert
            le came (read ∙ ap ok same),
      )
