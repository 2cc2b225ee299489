-- ===== src/Certification/Certificate/Facts.antt =====
-- The parts of build_certificate (pytusk/core/certification.py), one lemma for each.
use pytusk.Prelude.{
  ℕ, ◌+◌, ◌≡◌, refl, subst, true, false, not, ◌||◌, List, [], ◌∷◌, map, All, arith, contains,
  IsDistinct, Bool-cases, inl, inr,
}
use pytusk.Prelude.Bytes.{Bytes, bytes_eq, bytes_eq_iff}
use pytusk.Errors.{
  ok, raise_if, value_error, confirmation_mismatch, >>=-eq-ok, raise_if-eq-ok, ok-injective,
}
use pytusk.Certification.Certificate.{
  NodeConfirmation, Bls, tally, check_messages, place_of, verifies, good_confirmations, bad_nodes,
  is_empty,
}

-- The shard weight of a list of confirmations.
abbrev pub total_weight : List NodeConfirmation → ℕ
total_weight [] = 0
total_weight (c ∷ cs) = c.weight + total_weight cs

-- The positions of the confirmations are different from each other and from the seen ones.
abbrev pub IsFresh : List ℕ → List NodeConfirmation → Type 0
IsFresh seen [] = Unit
IsFresh seen (c ∷ cs) = (contains c.position seen ≡ false) × IsFresh (c.position ∷ seen) cs

-- What a successful tally returns.
pub record Tallied (cs : List NodeConfirmation) (seen : List ℕ) (weight : ℕ) (out : List ℕ × ℕ)
    : Type 0 where
  pub weighs : out.1 ≡ weight + total_weight cs
  pub members : (q : ℕ) → contains q out.0 ≡ (contains q seen || contains q (map place_of cs))
  pub distinct : IsDistinct out.0

pub tally-Tallied :
    (cs : List NodeConfirmation) (seen : List ℕ) (weight : ℕ) {out : List ℕ × ℕ}
    → IsDistinct seen
    → tally seen weight cs ≡ ok out
    → Tallied cs seen weight out
unfolding tally
tally-Tallied [] seen weight {out} d e =
    subst (Tallied [] seen weight) (ok-injective _ _ e)
      (record { weighs = omega arith; members = λ q. ground arith; distinct = d })
tally-Tallied (c ∷ cs) seen weight {out} d e =
    let (u, fresh, rest) = >>=-eq-ok (raise_if (contains c.position seen) value_error) _ e in
    let new = raise_if-eq-ok (contains c.position seen) value_error fresh in
    let t = tally-Tallied cs (c.position ∷ seen) (weight + c.weight) (new, d) rest in
    record {
      weighs = omega (arith, t.weighs);
      members = λ q. ground (arith, t.members q);
      distinct = t.distinct;
    }

-- Confirmations whose positions are different and not seen are tallied without an error.
pub fresh-tally :
    (cs : List NodeConfirmation) (seen : List ℕ) (weight : ℕ)
    → IsFresh seen cs
    → (out : List ℕ) × (tally seen weight cs ≡ ok (out, weight + total_weight cs))
unfolding tally
fresh-tally [] seen weight h = (seen, ground arith)
fresh-tally (c ∷ cs) seen weight (new, h) =
    let (out, e) = fresh-tally cs (c.position ∷ seen) (weight + c.weight) h in (out, ground arith)

pub check_messages-eq-ok :
    (message : Bytes) (cs : List NodeConfirmation)
    → check_messages message cs ≡ ok tt
    → All (λ c. c.serialized_message ≡ message) cs
unfolding check_messages
check_messages-eq-ok message [] e = tt
check_messages-eq-ok message (c ∷ cs) e =
    let (u, same, rest) =
      >>=-eq-ok (raise_if (not (bytes_eq c.serialized_message message)) confirmation_mismatch) _
        e in
    let equal =
      raise_if-eq-ok (not (bytes_eq c.serialized_message message)) confirmation_mismatch same in
    (
      (bytes_eq_iff c.serialized_message message).0 (ground arith),
      check_messages-eq-ok message cs rest,
    )

pub agreed-check_messages :
    (message : Bytes) (cs : List NodeConfirmation)
    → All (λ c. c.serialized_message ≡ message) cs
    → check_messages message cs ≡ ok tt
unfolding check_messages
agreed-check_messages message [] h = refl
agreed-check_messages message (c ∷ cs) (h, hs) =
    rw ((bytes_eq_iff c.serialized_message message).1 h) (agreed-check_messages message cs hs)

module _ (bls : Bls) (message : Bytes) where
  pub good_confirmations-verify :
      (cs : List NodeConfirmation)
      → All (λ c. verifies bls message c ≡ true) (good_confirmations bls message cs)
  unfolding good_confirmations
  good_confirmations-verify [] = tt
  good_confirmations-verify (c ∷ cs) = elim (Bool-cases (verifies bls message c)) [
    | inl y ↦ rw y (y, good_confirmations-verify cs)
    | inr n ↦ rw n (good_confirmations-verify cs)
  ]

  -- Without a bad node every confirmation is good.
  pub good_confirmations-all :
      (cs : List NodeConfirmation)
      → is_empty (bad_nodes bls message cs) ≡ true
      → good_confirmations bls message cs ≡ cs
  unfolding good_confirmations bad_nodes
  good_confirmations-all [] e = refl
  good_confirmations-all (c ∷ cs) e = ground (arith, good_confirmations-all cs)
