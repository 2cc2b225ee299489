-- ===== src/NativeUpload/Certify/Current.antt =====
-- The loop over the checks of the epoch (pytusk/core/native_upload/certify.py).
use pytusk.Prelude.{
  ℕ, zero, suc, ◌+◌, ◌≤◌, ◌≡◌, refl, ap, subst, true, false, Option, some, arith, Bool-cases, ◌⊎◌,
  inl, inr,
}
use pytusk.Prelude.Int.{ℤ, pos, negsuc}
use pytusk.Prelude.Bytes.{Bytes}
use pytusk.Errors.{Error, Result, ok, err, epoch_mismatch, Result-cases}
use pytusk.Certification.Certificate.{Certificate}
use pytusk.Committee.Members.{WalrusCommittee}
use pytusk.CommitteeFanout.{EventLoopLaws}
use pytusk.NativeUpload.Confirm.{Registration}
use pytusk.NativeUpload.Confirm.Collected.{collect_confirmations-ends}
use pytusk.NativeUpload.Certify.{
  int_eq, Outside, Libraries, fetch_epoch, fetch_committee, collect, refetch, checked,
}

module _ (libraries : Libraries) (outside : Outside) (registration : Registration)
    (blob_id : Bytes) where
  abbrev pub epoch_at : ℕ → Result ℤ
  epoch_at k = fetch_epoch libraries outside registration k

  abbrev committee_at : ℕ → Result WalrusCommittee
  committee_at k = fetch_committee libraries outside registration k

  abbrev collected_at : ℕ → WalrusCommittee → Option (Result Certificate)
  collected_at k c = collect libraries outside registration blob_id k c

  -- The committee and the certificate at the check `k`: those that certify was given, at its first
  -- check, or a committee read after the check before, and the certificate collected from it.
  pub data Came (committee : WalrusCommittee) (certificate : Certificate)
      : ℕ → WalrusCommittee → Certificate → Type 0 where
    given : Came committee certificate 0 committee certificate
    refetched :
        (k : ℕ) (c : WalrusCommittee) (cert : Certificate)
        → committee_at k ≡ ok c
        → collected_at k c ≡ some (ok cert)
        → Came committee certificate (suc k) c cert

  -- A read after or at the check `k` raised this error.
  pub data Failed (k : ℕ) (e : Error) : Type 0 where
    no_epoch : epoch_at k ≡ err e → Failed k e
    no_committee : committee_at k ≡ err e → Failed k e
    no_certificate : (c : WalrusCommittee) → collected_at k c ≡ some (err e) → Failed k e

  -- How the loop ends, with `last` its last check.
  pub data Looped (committee : WalrusCommittee) (certificate : Certificate) (last : ℕ)
      : Result (WalrusCommittee × Certificate) → Type 0 where
    fresh :
        (k : ℕ) (c : WalrusCommittee) (cert : Certificate) (epoch : ℤ)
        → k ≤ last
        → Came committee certificate k c cert
        → epoch_at k ≡ ok epoch
        → epoch ≡ c.epoch
        → Looped committee certificate last (ok (c, cert))
    stale :
        (c : WalrusCommittee) (cert : Certificate) (epoch : ℤ)
        → Came committee certificate last c cert
        → epoch_at last ≡ ok epoch
        → int_eq epoch c.epoch ≡ false
        → Looped committee certificate last (err epoch_mismatch)
    failed : (k : ℕ) (e : Error) → k ≤ last → Failed k e → Looped committee certificate last (err e)

  same_int : (m n : ℤ) → int_eq m n ≡ true → m ≡ n
  same_int (pos m) (pos n) e = ap pos (ground arith)
  same_int (pos m) (negsuc n) e = cc
  same_int (negsuc m) (pos n) e = cc
  same_int (negsuc m) (negsuc n) e = ap negsuc (ground arith)

  collect-ends :
      (k : ℕ) (c : WalrusCommittee)
      → EventLoopLaws (outside.waits k)
      → (r : Result Certificate) × (collected_at k c ≡ some r)
  unfolding collect
  collect-ends k c laws =
      collect_confirmations-ends (outside.read_confirmation k) c blob_id registration libraries.bls
        libraries.fromhex (outside.waits k) laws

  refetch-Came :
      (committee : WalrusCommittee) (certificate : Certificate) (last k : ℕ)
      → EventLoopLaws (outside.waits k)
      → k ≤ last
      → ((c : WalrusCommittee) × (cert : Certificate) × (refetch libraries outside registration
              blob_id k
            ≡ some (ok (c, cert)))
          × Came committee certificate (suc k) c cert)
        ⊎ ((e : Error) × (refetch libraries outside registration blob_id k ≡ some (err e))
            × Looped committee certificate last (err e))
  unfolding refetch
  refetch-Came committee certificate last k laws le = elim (Result-cases (committee_at k)) [
    | inl (e, y) ↦ inr (e, rw (y, refetch) refl, failed k e le (no_committee y))
    | inr (c, y) ↦ let (r, z) = collect-ends k c laws in by_collected c y r z
  ]
    where
      by_collected :
          (c : WalrusCommittee)
          → committee_at k ≡ ok c
          → (r : Result Certificate) → collected_at k c ≡ some r
          → ((d : WalrusCommittee) × (cert : Certificate) × (refetch libraries outside registration
                  blob_id k
                ≡ some (ok (d, cert)))
              × Came committee certificate (suc k) d cert)
            ⊎ ((e : Error) × (refetch libraries outside registration blob_id k ≡ some (err e))
                × Looped committee certificate last (err e))
      by_collected c y (err e) z =
          inr (e, rw (y, refetch, z) refl, failed k e le (no_certificate c z))
      by_collected c y (ok cert) z = inl (c, cert, rw (y, refetch, z) refl, refetched k c cert y z)

  pub checked-Looped :
      ((k : ℕ) → EventLoopLaws (outside.waits k))
      → (committee : WalrusCommittee) (certificate : Certificate) (last left k : ℕ)
        (c : WalrusCommittee) (cert : Certificate)
      → k + left ≡ last
      → Came committee certificate k c cert
      → (r : Result (WalrusCommittee × Certificate)) × (checked libraries outside registration
            blob_id left k c cert
          ≡ some r)
        × Looped committee certificate last r
  unfolding checked
  checked-Looped laws committee certificate last zero k c cert e came =
      elim (Result-cases (epoch_at k)) [
        | inl (raises, y) ↦
            (err raises, rw (y, checked) refl, failed k raises (omega arith) (no_epoch y))
        | inr (epoch, y) ↦
            let at_last : k ≡ last = omega arith in
            elim (Bool-cases (int_eq epoch c.epoch)) [
              | inl same ↦ (
                ok (c, cert),
                rw (y, checked) (rw same refl),
                fresh k c cert epoch (omega arith) came y (same_int epoch c.epoch same),
              )
              | inr differs ↦ (
                err epoch_mismatch,
                rw (y, checked) (rw differs refl),
                stale c cert epoch (rw (← at_last) came) (rw (← at_last) y) differs,
              )
            ]
      ]
  checked-Looped laws committee certificate last (suc left) k c cert e came =
      elim (Result-cases (epoch_at k)) [
        | inl (raises, y) ↦
            (err raises, rw (y, checked) refl, failed k raises (omega arith) (no_epoch y))
        | inr (epoch, y) ↦ elim (Bool-cases (int_eq epoch c.epoch)) [
          | inl same ↦ (
            ok (c, cert),
            rw (y, checked) (rw same refl),
            fresh k c cert epoch (omega arith) came y (same_int epoch c.epoch same),
          )
          | inr differs ↦ elim (refetch-Came committee certificate last k (laws k) (omega arith)) [
            | inr (raises, z, how) ↦
                (err raises, rw (y, checked) (rw differs (rw (z, checked) refl)), how)
            | inl (d, new_cert, z, came') ↦
                let (r, eq, how) =
                  checked-Looped laws committee certificate last left (k + 1) d new_cert
                    (omega arith)
                    (subst (λ i. Came committee certificate i d new_cert) (omega arith) came') in
                (r, rw (y, checked) (rw differs (rw (z, checked) eq)), how)
          ]
        ]
      ]
