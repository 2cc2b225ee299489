-- ===== src/NativeUpload/Confirm/Collected.antt =====
-- What collect_confirmations returns (pytusk/core/native_upload/confirm.py).
use mathlib.Core.List.{append-nil, Perm}
use pytusk.Prelude.{
  ℕ, ◌+◌, ◌≤◌, ◌≡◌, refl, sym, ap, ◌∙◌, subst, String, Bool, true, false, Option, none, some, List,
  [], ◌∷◌, ◌++◌, arith, All, ◌⊎◌, inl, inr,
}
use pytusk.Prelude.Int.{ℤ, pos_part}
use pytusk.Prelude.Bytes.{Bytes}
use pytusk.Prelude.Orders.{any, any-Perm}
use pytusk.Errors.{
  Error, Result, ok, err, cancelled, confirmation_collection, raise_if, ◌>>◌, Result-cases,
}
use pytusk.Certification.Quorum.{min_weight_for_quorum}
use pytusk.Certification.Certificate.{
  NodeConfirmation, Certificate, Bls, is_empty, reference, confirmation_message, build_certificate,
}
use pytusk.Certification.Certificate.Facts.{total_weight}
use pytusk.Certification.Certificate.Soundness.{IsSigned, IsTally, build_certificate_sound}
use pytusk.Committee.Members.{WalrusCommitteeMember, WalrusCommittee, committee_size}
use pytusk.CommitteeFanout.{EventLoop, EventLoopLaws, Fanned}
use pytusk.CommitteeFanout.Accounts.{IsAccount, fan_out_accounts}
use pytusk.NativeUpload.Confirm.{
  Registration, SignedAnswer, confirmation_candidates, Confirmed, none_confirmed, has_enough,
  confirmation_cancelled, wrap_error, or_wrapped, certificate_from, fold_confirmation,
  fan_out_confirmations, after_object_id, object_id_bytes, collect_confirmations,
}
use pytusk.NativeUpload.Confirm.Usable.{
  total_weight-append, required-positive, foldl-cancelled, confirmed_of, usable_of, is_usable,
  IsConfirmation, usable_of-All, usable_of-none, usable_of-append, folded, folded-usable,
}

module _ (read_confirmation : WalrusCommitteeMember → Bytes → Option String → SignedAnswer)
    (committee : WalrusCommittee) (blob_id : Bytes) (registration : Registration) where
  abbrev kept : List WalrusCommitteeMember → List NodeConfirmation
  kept ms = usable_of read_confirmation committee blob_id registration ms

  abbrev answers : WalrusCommitteeMember → Bool
  answers m = is_usable read_confirmation committee blob_id registration m

  module _ (bls : Bls) where
    abbrev size : ℕ
    size = committee_size committee

    abbrev n_shards : ℕ
    n_shards = pos_part committee.n_shards

    abbrev required : ℕ
    required = min_weight_for_quorum n_shards

    -- The requests that ended, and the stragglers: these are given up only from the quorum weight on.
    pub record AreAsked (members completed stragglers : List WalrusCommitteeMember) : Type 0 where
      pub once : Perm (completed ++ stragglers) members
      pub given_up : (stragglers ≡ []) ⊎ (required ≤ total_weight (kept completed))

    -- How the collection from these members ends.
    pub data Collected (members : List WalrusCommitteeMember) (expected : Bytes)
        : Result Certificate → Type 0 where
      certified :
          (completed stragglers : List WalrusCommitteeMember) (signers : List NodeConfirmation)
          (certificate : Certificate)
          → AreAsked members completed stragglers
          → All (IsConfirmation read_confirmation committee blob_id registration) (kept completed)
          → certificate.serialized_message ≡ expected
          → IsSigned bls
              (kept completed)
              signers
              certificate.serialized_message
              certificate.aggregate_signature
          → IsTally signers size n_shards certificate
          → Collected members expected (ok certificate)
      not_built :
          (completed stragglers : List WalrusCommitteeMember) (e : Error)
          → AreAsked members completed stragglers
          → build_certificate bls (kept completed) size n_shards (some expected) ≡ err e
          → Collected members expected (err (wrap_error e))
      none_usable :
          any answers members ≡ false → Collected members expected (err confirmation_collection)
      caller_cancelled : Collected members expected (err cancelled)

    module _ (loop : EventLoop WalrusCommitteeMember) (members : List WalrusCommitteeMember)
        (out : Fanned WalrusCommitteeMember Confirmed)
        (is : IsAccount loop
          (fold_confirmation read_confirmation committee blob_id registration)
          confirmation_cancelled
          (has_enough required)
          members
          none_confirmed
          out) where
      acc-usable :
          out.acc ≡ confirmed_of (kept out.completed) (0 + total_weight (kept out.completed))
      acc-usable =
          is.folded
          ∙ foldl-cancelled
              (folded read_confirmation committee blob_id registration none_confirmed out.completed)
              out.cancelled
          ∙ folded-usable read_confirmation committee blob_id registration out.completed
              none_confirmed

      all_asked : out.interrupted ≡ false → AreAsked members out.completed out.cancelled
      all_asked e = record {
        once =
            subst (λ rest. Perm (out.completed ++ rest) members)
              (ap (◌++◌ out.cancelled) none_swept ∙ append-nil out.cancelled) is.once;
        given_up = elim is.cancelled_if [
          | inl none_of_them ↦ inl none_of_them
          | inr (before, after, split, met) ↦
              let reached : has_enough required
                    (confirmed_of ([] ++ kept before) (0 + total_weight (kept before)))
                  ≡ true =
                subst (λ u. has_enough required u ≡ true)
                  (folded-usable read_confirmation committee blob_id registration before
                    none_confirmed)
                  met in
              let whole =
                ap kept split
                ∙ usable_of-append read_confirmation committee blob_id registration before after in
              let weighs = ap total_weight whole ∙ total_weight-append (kept before) (kept after) in
              inr (ground (arith, weighs))
        ];
      }
        where
          none_swept : out.unreported ≡ []
          none_swept = elim is.unreported_if [ inl stopped ↦ cc | inr none_of_them ↦ none_of_them ]

      none_among : out.interrupted ≡ false → kept out.completed ≡ [] → any answers members ≡ false
      none_among e empty =
          let a = all_asked e in
          let no_stragglers : out.cancelled ≡ [] = elim a.given_up [
            | inl none_of_them ↦ none_of_them
            | inr heavy ↦ absurd (ground (arith, ap total_weight empty, required-positive n_shards))
          ] in
          let all : Perm (out.completed ++ []) members = rw (← no_stragglers) (a.once) in
          sym (any-Perm answers _ _ all)
          ∙ ap (any answers) (append-nil out.completed)
          ∙ usable_of-none read_confirmation committee blob_id registration out.completed empty

      by_certificate :
          (expected : Bytes) (r : Result Certificate)
          → out.interrupted ≡ false
          → build_certificate bls (kept out.completed) size n_shards (some expected) ≡ r
          → Collected members expected (or_wrapped r)
      unfolding or_wrapped reference
      by_certificate expected (err e) going y =
          not_built out.completed out.cancelled e (all_asked going) y
      by_certificate expected (ok certificate) going y =
          let (signers, message, agreed, is_signed, tally) =
            build_certificate_sound bls (kept out.completed) size n_shards (some expected) y in
          certified out.completed out.cancelled signers certificate (all_asked going)
            (usable_of-All read_confirmation committee blob_id registration out.completed) message
            is_signed tally

      counted :
          (expected : Bytes) (interrupted : Bool)
          → out.interrupted ≡ interrupted
          → Collected members expected (certificate_from bls committee expected out)
      unfolding certificate_from
      counted expected true e = rw e caller_cancelled
      counted expected false e = rw (e, acc-usable) (by_list (kept out.completed) refl)
        where
          by_list :
              (cs : List NodeConfirmation)
              → kept out.completed ≡ cs
              → Collected members expected (do
                raise_if (is_empty cs) confirmation_collection
                or_wrapped (build_certificate bls cs size n_shards (some expected)))
          by_list [] empty = none_usable (none_among e empty)
          by_list (c ∷ cs) full = rw (← full) (by_certificate expected _ e refl)

    module _ (fromhex : String → Result Bytes) (loop : EventLoop WalrusCommitteeMember) where
      -- Under the laws of the event loop, whatever its waits return, for an object ID that can be read and
      -- positions that are there: collect_confirmations ends. It returns a certificate of the expected
      -- message, with a quorum of signers that are members which answered, each with its own position,
      -- weight and key; or it raises the error of build_certificate, wrapped; or it raises
      -- confirmation_collection and none of the candidates has a usable answer; or the caller is
      -- cancelled. Requests are given up only when the answers have the weight of a quorum.
      pub collect_confirmations-Collected :
          (positions : Option (List ℤ)) {object_id : Option Bytes}
          {members : List WalrusCommitteeMember}
          → EventLoopLaws loop
          → object_id_bytes fromhex registration ≡ ok object_id
          → confirmation_candidates committee positions ≡ ok members
          → (r : Result Certificate) × (collect_confirmations read_confirmation committee blob_id
                registration bls fromhex loop positions
              ≡ some r)
            × Collected members
                (confirmation_message bls (pos_part committee.epoch) blob_id object_id)
                r
      unfolding collect_confirmations after_object_id fan_out_confirmations
      collect_confirmations-Collected positions {object_id} {members} laws readable there =
          let expected = confirmation_message bls (pos_part committee.epoch) blob_id object_id in
          let (out, e, is) =
            fan_out_accounts loop
              (fold_confirmation read_confirmation committee blob_id registration)
              confirmation_cancelled (has_enough required) laws members none_confirmed in
          (
            certificate_from bls committee expected out,
            rw (readable, there, e, fan_out_confirmations) refl,
            counted loop members out is expected out.interrupted refl,
          )

      -- In particular it ends with every member as a candidate.
      pub collect_confirmations-ends :
          EventLoopLaws loop
          → (r : Result Certificate) × (collect_confirmations read_confirmation committee blob_id
                registration bls fromhex loop none
              ≡ some r)
      unfolding collect_confirmations after_object_id confirmation_candidates
      collect_confirmations-ends laws = elim (Result-cases (object_id_bytes fromhex registration)) [
        | inl (e, y) ↦ (err e, rw (y, after_object_id) refl)
        | inr (object_id, y) ↦
            let (r, e, how) = collect_confirmations-Collected none laws y refl in (r, e)
      ]
