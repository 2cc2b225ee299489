-- ===== src/Committee/Coverage.antt =====
-- The coverage that build_committee (pytusk/core/chain/committee.py) counts: how often the members claim
-- each shard.
use pytusk.Prelude.{
  ℕ, zero, suc, ◌+◌, ◌≤◌, ◌<◌, ◌≡◌, refl, ◌∙◌, subst, String, true, false, List, [], ◌∷◌, length,
  get_or, set, ◌==◌, if◌then◌else◌, contains, arith, length-set, get_or-set_self, get_or-set_ne,
  Bool-cases, inl, inr, ==_iff,
}
use pytusk.Prelude.Int.{ℤ, pos, negsuc, pos_part}
use pytusk.Prelude.Bytes.{Bytes}
use pytusk.Errors.{Result, ok, value_error, raise_if, >>=-eq-ok, raise_if-eq-ok, ok-injective}
use pytusk.Committee.Json.{pool_network_address, pool_public_key}
use pytusk.Committee.Members.{WalrusCommitteeMember, at_least}
use pytusk.Committee.Build.{
  Pools, pool_of, claim, found_pool, add_member, add_members, covered_once,
}

abbrev pub count : ℕ → List ℕ → ℕ
count s [] = 0
count s (q ∷ qs) = (if q == s then 1 else 0) + count s qs

-- How often the members claim a shard.
abbrev pub claims : ℕ → List WalrusCommitteeMember → ℕ
claims s [] = 0
claims s (m ∷ ms) = count s m.shard_indices + claims s ms

pub count-contains : (s : ℕ) (qs : List ℕ) → (if contains s qs then 1 else 0) ≤ count s qs
count-contains s [] = omega arith
count-contains s (q ∷ qs) = ground (arith, count-contains s qs)

pub not_counted : (s : ℕ) (qs : List ℕ) → contains s qs ≡ false → count s qs ≡ 0
not_counted s [] h = refl
not_counted s (q ∷ qs) h = ground (arith, not_counted s qs)

get_or-set :
    (t : List ℕ) (q s v d : ℕ)
    → q < length t
    → get_or (set t q v) s d ≡ (if q == s then v else get_or t s d)
get_or-set t q s v d lt = elim (Bool-cases (q == s)) [
  | inl y ↦ rw y (rw (← (==_iff q s).0 y) (get_or-set_self t q v d lt))
  | inr n ↦ rw n (get_or-set_ne t q s v d (ground arith))
]

-- What a claim of shards adds to the coverage.
pub record Adds (added : ℕ → ℕ) (coverage after : List ℕ) : Type 0 where
  pub size : length after ≡ length coverage
  pub counts : (s : ℕ) → get_or after s 0 ≡ get_or coverage s 0 + added s

module _ (n_shards : ℤ) where
  in_range : (s : ℕ) → at_least s n_shards ≡ false → s < pos_part n_shards
  in_range s h = in_range_of n_shards h
    where
      in_range_of : (n : ℤ) → at_least s n ≡ false → s < pos_part n
      in_range_of (pos n) h = ground arith
      in_range_of (negsuc n) h = cc

  claim-Adds :
      (shards : List ℤ) (coverage : List ℕ) {out : List ℕ × List ℕ}
      → length coverage ≡ pos_part n_shards
      → claim n_shards shards coverage ≡ ok out
      → Adds (λ s. count s out.0) coverage out.1
  unfolding claim
  claim-Adds [] coverage {out} len e =
      subst (λ (o : List ℕ × List ℕ). Adds (λ s. count s o.0) coverage o.1) (ok-injective _ _ e)
        (record { size = refl; counts = λ s. omega arith })
  claim-Adds (negsuc s ∷ rest) coverage len e = cc
  claim-Adds (pos s ∷ rest) coverage {out} len e =
      let (u, fresh, e₁) = >>=-eq-ok (raise_if (at_least s n_shards) value_error) _ e in
      let lt : s < length coverage =
        omega (arith, in_range s (raise_if-eq-ok (at_least s n_shards) value_error fresh)) in
      let bumped = set coverage s (get_or coverage s 0 + 1) in
      let ((shards, after), claimed, e₂) = >>=-eq-ok (claim n_shards rest bumped) _ e₁ in
      let a = claim-Adds rest bumped (length-set coverage s _ ∙ len) claimed in
      subst (λ (o : List ℕ × List ℕ). Adds (λ s. count s o.0) coverage o.1) (ok-injective _ _ e₂)
        (record {
          size = a.size ∙ length-set coverage s _;
          counts = λ q.
              ground (arith, a.counts q, get_or-set coverage s q (get_or coverage s 0 + 1) 0 lt);
        })

  module _ (b64decode : String → Result Bytes) (pools : Pools) where
    add_member-Adds :
        (entry : String × List ℤ) (coverage : List ℕ) {out : WalrusCommitteeMember × List ℕ}
        → length coverage ≡ pos_part n_shards
        → add_member b64decode pools n_shards entry coverage ≡ ok out
        → Adds (λ s. count s out.0.shard_indices) coverage out.1
    unfolding add_member
    add_member-Adds (node_id, shard_indices) coverage {out} len e =
        let (pool, found, e₁) =
          >>=-eq-ok (found_pool b64decode pools (pool_of node_id pools)) _ e in
        let ((shards, after), claimed, e₂) =
          >>=-eq-ok (claim n_shards shard_indices coverage) _ e₁ in
        let (address, _, e₃) = >>=-eq-ok (pool_network_address pool) _ e₂ in
        let (key, _, e₄) = >>=-eq-ok (pool_public_key b64decode pool) _ e₃ in
        subst
          (λ (o : WalrusCommitteeMember × List ℕ).
            Adds (λ s. count s o.0.shard_indices) coverage o.1)
          (ok-injective _ _ e₄) (claim-Adds shard_indices coverage len claimed)

    pub add_members-Adds :
        (entries : List (String × List ℤ)) (coverage : List ℕ)
        {out : List WalrusCommitteeMember × List ℕ}
        → length coverage ≡ pos_part n_shards
        → add_members b64decode pools n_shards entries coverage ≡ ok out
        → Adds (λ s. claims s out.0) coverage out.1
    unfolding add_members
    add_members-Adds [] coverage {out} len e =
        subst (λ (o : List WalrusCommitteeMember × List ℕ). Adds (λ s. claims s o.0) coverage o.1)
          (ok-injective _ _ e) (record { size = refl; counts = λ s. omega arith })
    add_members-Adds (entry ∷ entries) coverage {out} len e =
        let ((member, after), added, e₁) =
          >>=-eq-ok (add_member b64decode pools n_shards entry coverage) _ e in
        let one = add_member-Adds entry coverage len added in
        let ((members, final), rest, e₂) =
          >>=-eq-ok (add_members b64decode pools n_shards entries after) _ e₁ in
        let more = add_members-Adds entries after (one.size ∙ len) rest in
        subst (λ (o : List WalrusCommitteeMember × List ℕ). Adds (λ s. claims s o.0) coverage o.1)
          (ok-injective _ _ e₂)
          (record {
            size = more.size ∙ one.size;
            counts = λ s. omega (arith, more.counts s, one.counts s);
          })

    pub covered_once-at :
        (counts : List ℕ) (s : ℕ)
        → covered_once b64decode pools counts ≡ true
        → s < length counts
        → get_or counts s 0 ≡ 1
    unfolding covered_once
    covered_once-at [] s h lt = absurd (omega arith)
    covered_once-at (c ∷ cs) zero h lt = ground arith
    covered_once-at (c ∷ cs) (suc s) h lt = covered_once-at cs s (ground arith) (omega arith)
