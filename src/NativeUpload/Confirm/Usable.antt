-- ===== src/NativeUpload/Confirm/Usable.antt =====
-- The confirmations that collect_confirmations keeps (pytusk/core/native_upload/confirm.py).
use mathlib.Core.List.{foldl, append-nil, append_assoc}
use mathlib.Core.Option.{some-injective}
use pytusk.Prelude.{
  ℕ, ◌+◌, ◌≤◌, ◌≡◌, refl, sym, ap, ap₂, ◌∙◌, subst, String, Bool, true, false, Option, none, some,
  List, [], ◌∷◌, ◌++◌, length, arith, All, Option-cases, inl, inr,
}
use pytusk.Prelude.Bytes.{Bytes}
use pytusk.Prelude.Orders.{any}
use pytusk.Errors.{Result, ok, err}
use pytusk.Certification.Quorum.{min_weight_for_quorum}
use pytusk.Certification.Certificate.{NodeConfirmation}
use pytusk.Certification.Certificate.Facts.{total_weight}
use pytusk.Committee.Members.{WalrusCommitteeMember, WalrusCommittee, position_of}
use pytusk.NativeUpload.Confirm.{
  Registration, SignedAnswer, signed, failed, raised, requested_object, Confirmed,
  confirmation_cancelled, confirm_node, fold_confirmation,
}

pub total_weight-append :
    (cs ds : List NodeConfirmation) → total_weight (cs ++ ds) ≡ total_weight cs + total_weight ds
total_weight-append [] ds = omega arith
total_weight-append (c ∷ cs) ds = omega (arith, total_weight-append cs ds)

pub required-positive : (n : ℕ) → 1 ≤ min_weight_for_quorum n
unfolding min_weight_for_quorum
required-positive n = ground arith

pub foldl-cancelled :
    (u : Confirmed) (ms : List WalrusCommitteeMember) → foldl confirmation_cancelled u ms ≡ u
foldl-cancelled u [] = refl
foldl-cancelled u (m ∷ ms) = foldl-cancelled u ms

abbrev pub confirmed_of : List NodeConfirmation → ℕ → Confirmed
confirmed_of cs weight = record { confirmations = cs; weight_confirmed = weight }

abbrev pub is_confirmed : Option NodeConfirmation → Bool
is_confirmed none = false
is_confirmed (some c) = true

module _ (read_confirmation : WalrusCommitteeMember → Bytes → Option String → SignedAnswer)
    (committee : WalrusCommittee) (blob_id : Bytes) (registration : Registration) where
  abbrev answer : WalrusCommitteeMember → Option NodeConfirmation
  answer m = confirm_node read_confirmation committee blob_id registration m

  abbrev or_skipped : Option NodeConfirmation → List NodeConfirmation → List NodeConfirmation
  or_skipped none cs = cs
  or_skipped (some c) cs = c ∷ cs

  -- The confirmations of these members, in their order.
  abbrev pub usable_of : List WalrusCommitteeMember → List NodeConfirmation
  usable_of [] = []
  usable_of (m ∷ ms) = or_skipped (answer m) (usable_of ms)

  abbrev pub is_usable : WalrusCommitteeMember → Bool
  is_usable m = is_confirmed (answer m)

  -- A confirmation that a member signed, with the member's key, position and weight.
  abbrev pub IsConfirmation : NodeConfirmation → Type 0
  IsConfirmation c =
      (member : WalrusCommitteeMember) × (read_confirmation member blob_id
          (requested_object registration)
        ≡ signed c.serialized_message c.signature)
      × (position_of committee member.node_id ≡ ok c.position)
      × (c.public_key ≡ member.public_key)
      × (c.weight ≡ length member.shard_indices)

  confirm_node-IsConfirmation :
      (m : WalrusCommitteeMember) {c : NodeConfirmation} → answer m ≡ some c → IsConfirmation c
  unfolding confirm_node
  confirm_node-IsConfirmation m {c} e =
      by_answer (read_confirmation m blob_id (requested_object registration))
        (position_of committee m.node_id) refl refl e
    where
      by_answer :
          (a : SignedAnswer) (p : Result ℕ)
          → read_confirmation m blob_id (requested_object registration) ≡ a
          → position_of committee m.node_id ≡ p
          → elim a [
            | failed reason ↦ none
            | raised why ↦ none
            | signed serialized_message signature ↦ elim p [
              | err e ↦ none
              | ok position ↦ some (record {
                node_id = m.node_id;
                position = position;
                weight = length m.shard_indices;
                public_key = m.public_key;
                serialized_message = serialized_message;
                signature = signature;
              })
            ]
          ]
            ≡ some c
          → IsConfirmation c
      by_answer (failed reason) p a q eq = cc
      by_answer (raised why) p a q eq = cc
      by_answer (signed message signature) (err raises) a q eq = cc
      by_answer (signed message signature) (ok position) a q eq =
          subst IsConfirmation (some-injective _ _ eq) (m, a, q, refl, refl)

  pub usable_of-All : (ms : List WalrusCommitteeMember) → All IsConfirmation (usable_of ms)
  usable_of-All [] = tt
  usable_of-All (m ∷ ms) = elim (Option-cases (answer m)) [
    | inl n ↦ rw n (usable_of-All ms)
    | inr (c, y) ↦ rw y (confirm_node-IsConfirmation m y, usable_of-All ms)
  ]

  pub usable_of-none :
      (ms : List WalrusCommitteeMember) → usable_of ms ≡ [] → any is_usable ms ≡ false
  usable_of-none [] e = refl
  usable_of-none (m ∷ ms) e = elim (Option-cases (answer m)) [
    | inl n ↦ rw n (usable_of-none ms (rw n at e))
    | inr (c, y) ↦ cc (rw y at e)
  ]

  pub usable_of-append :
      (ms ns : List WalrusCommitteeMember) → usable_of (ms ++ ns) ≡ usable_of ms ++ usable_of ns
  usable_of-append [] ns = refl
  usable_of-append (m ∷ ms) ns = elim (Option-cases (answer m)) [
    | inl n ↦ rw n (usable_of-append ms ns)
    | inr (c, y) ↦ rw y (ap (◌∷◌ c) (usable_of-append ms ns))
  ]

  abbrev pub folded : Confirmed → List WalrusCommitteeMember → Confirmed
  folded u ms = foldl (fold_confirmation read_confirmation committee blob_id registration) u ms

  pub folded-usable :
      (ms : List WalrusCommitteeMember) (u : Confirmed)
      → folded u ms
        ≡ confirmed_of
            (u.confirmations ++ usable_of ms)
            (u.weight_confirmed + total_weight (usable_of ms))
  unfolding fold_confirmation
  folded-usable [] u = ap₂ confirmed_of (sym (append-nil u.confirmations)) (omega arith)
  folded-usable (m ∷ ms) u = elim (Option-cases (answer m)) [
    | inl n ↦ rw (n, fold_confirmation) (folded-usable ms u)
    | inr (c, y) ↦
        rw (y, fold_confirmation)
          (folded-usable ms
              (confirmed_of (u.confirmations ++ c ∷ []) (u.weight_confirmed + c.weight))
            ∙ ap₂ confirmed_of (append_assoc u.confirmations (c ∷ []) (usable_of ms)) (omega arith))
  ]
