-- ===== src/Certification/Quorum/Signers.antt =====
-- What a quorum (pytusk/core/certification.py) says of the signers, against the fault bound of
-- pytusk/core/encoding/redstuff.py.
use pytusk.Prelude.{
  ℕ, zero, suc, ◌+◌, ◌≤◌, ◌<◌, ◌≡◌, ◌↔◌, ◌∙◌, true, not, ◌&&◌, Bool, List, [], ◌∷◌, length,
  contains, if◌then◌else◌, arith, Bool-cases, inl, inr,
}
use pytusk.Prelude.Int.{pos}
use pytusk.Redstuff.Sizes.{max_n_faulty}
use pytusk.Committee.Members.{WalrusCommitteeMember}
use pytusk.Certification.Quorum.{is_quorum}

-- The shards of the members, from a position on, whose positions pass a test.
abbrev pub shards_where : (ℕ → Bool) → ℕ → List WalrusCommitteeMember → ℕ
shards_where test position [] = 0
shards_where test position (m ∷ ms) =
    let rest = shards_where test (position + 1) ms in
    (if test position then length m.shard_indices else 0) + rest

abbrev pub all_shards : List WalrusCommitteeMember → ℕ
all_shards = shards_where (λ p. true) 0

-- The shards of the signers, of the other members, and of those who sign both times.
abbrev pub signed : List ℕ → List WalrusCommitteeMember → ℕ
signed ps = shards_where (λ p. contains p ps) 0

abbrev pub unsigned : List ℕ → List WalrusCommitteeMember → ℕ
unsigned ps = shards_where (λ p. not (contains p ps)) 0

abbrev pub signed_twice : List ℕ → List ℕ → List WalrusCommitteeMember → ℕ
signed_twice ps qs = shards_where (λ p. contains p ps && contains p qs) 0

parts :
    (test : ℕ → Bool) (position : ℕ) (members : List WalrusCommitteeMember)
    → shards_where test position members + shards_where (λ p. not (test p)) position members
      ≡ shards_where (λ p. true) position members
parts test position [] = omega arith
parts test position (m ∷ ms) = elim (Bool-cases (test position)) [
  | inl y ↦ rw y (omega (arith, parts test (position + 1) ms))
  | inr n ↦ rw n (omega (arith, parts test (position + 1) ms))
]

overlap :
    (s t : ℕ → Bool) (position : ℕ) (members : List WalrusCommitteeMember)
    → shards_where s position members + shards_where t position members
      ≤ shards_where (λ p. true) position members + shards_where (λ p. s p && t p) position members
overlap s t position [] = omega arith
overlap s t position (m ∷ ms) = elim (Bool-cases (s position)) [
  | inl y ↦ elim (Bool-cases (t position)) [
    | inl z ↦ rw (y, z) (omega (arith, overlap s t (position + 1) ms))
    | inr z ↦ rw (y, z) (omega (arith, overlap s t (position + 1) ms))
  ]
  | inr n ↦ elim (Bool-cases (t position)) [
    | inl z ↦ rw (n, z) (omega (arith, overlap s t (position + 1) ms))
    | inr z ↦ rw (n, z) (omega (arith, overlap s t (position + 1) ms))
  ]
]

quorum_exact : (w u n f : ℕ) → w + u ≡ n → max_n_faulty n ≡ pos f → (is_quorum w n ≡ true) ↔ (u ≤ f)
unfolding is_quorum max_n_faulty
quorum_exact w u zero f total e = absurd (cc)
quorum_exact w u (suc m) f total e = ground (arith, total, e)

two_quorums :
    (v w n f : ℕ)
    → max_n_faulty n ≡ pos f
    → is_quorum v n ≡ true
    → is_quorum w n ≡ true
    → n + f < v + w
unfolding is_quorum max_n_faulty
two_quorums v w zero f e p q = absurd (cc)
two_quorums v w (suc m) f e p q = ground arith

-- For a committee whose members have n shards in all, of which f = max_n_faulty n may be faulty: some signers are a
-- quorum exactly if the members who do not sign have f shards at most. So the correct members are always a
-- quorum, and of any two quorums, the members who sign both times have more than f shards.
pub quorums_intersect :
    (members : List WalrusCommitteeMember) (n f : ℕ) (ps qs : List ℕ)
    → all_shards members ≡ n
    → max_n_faulty n ≡ pos f
    → is_quorum (signed ps members) n ≡ true
    → is_quorum (signed qs members) n ≡ true
    → (f < signed_twice ps qs members)
      × ((rs : List ℕ) → (is_quorum (signed rs members) n ≡ true) ↔ (unsigned rs members ≤ f))
quorums_intersect members n f ps qs total e p q = (
  omega (
    arith,
    two_quorums (signed ps members) (signed qs members) n f e p q,
    overlap (λ r. contains r ps) (λ r. contains r qs) 0 members,
    total,
  ),
  λ rs.
      quorum_exact (signed rs members) (unsigned rs members) n f
        (parts (λ r. contains r rs) 0 members ∙ total) e,
)
