-- ===== src/Committee/Cover.antt =====
-- A built committee assigns every shard to one member (pytusk/core/chain/committee.py).
use pytusk.Prelude.{
  ℕ, ◌<◌, ◌≡◌, refl, ap, ◌∙◌, subst, String, Bool, true, false, not, some, List, length, get_or,
  get_elem?, replicate, contains, arith, length-replicate, get_or-replicate,
}
use pytusk.Prelude.Int.{ℤ, pos, negsuc, pos_part}
use pytusk.Prelude.Bytes.{Bytes}
use pytusk.Errors.{Result, ok, value_error, raise_if, >>=-eq-ok, raise_if-eq-ok, ok-injective}
use pytusk.Committee.Json.{JsonDict, staking_n_shards, staking_committee_shards, staking_epoch}
use pytusk.Committee.Members.{
  WalrusCommitteeMember, WalrusCommittee, at_least, position_by_shard, position_for_shard,
  member_at, member_for_shard,
}
use pytusk.Committee.Build.{Pools, add_members, covered_once, build_committee}
use pytusk.Committee.Coverage.{claims, Adds, add_members-Adds, covered_once-at}
use pytusk.Committee.Table.{Assigned, assigned}

negated : (b : Bool) → not b ≡ false → b ≡ true
negated true h = refl
negated false h = cc

below : (n : ℤ) (s : ℕ) → s < pos_part n → at_least s n ≡ false
below (pos n) s lt = ground arith
below (negsuc n) s lt = absurd (omega arith)

-- What build_committee found when it succeeded.
record Built (b64decode : String → Result Bytes) (pools : Pools) (staking_inner : JsonDict)
    (c : WalrusCommittee) : Type 0 where
  coverage : List ℕ
  entries : List (String × List ℤ)
  added :
      add_members b64decode pools c.n_shards entries (replicate (pos_part c.n_shards) 0)
      ≡ ok (c.members, coverage)
  once : covered_once b64decode pools coverage ≡ true

build_committee-Built :
    (b64decode : String → Result Bytes) (pools : Pools) (staking_inner : JsonDict)
    {c : WalrusCommittee}
    → build_committee b64decode pools staking_inner ≡ ok c
    → Built b64decode pools staking_inner c
unfolding build_committee
build_committee-Built b64decode pools staking_inner e =
    let (n_shards, _, e₁) = >>=-eq-ok (staking_n_shards staking_inner) _ e in
    let (entries, _, e₂) = >>=-eq-ok (staking_committee_shards staking_inner) _ e₁ in
    let ((members, coverage), added, e₃) =
      >>=-eq-ok (add_members b64decode pools n_shards entries (replicate (pos_part n_shards) 0)) _
        e₂ in
    let (_, covered, e₄) =
      >>=-eq-ok (raise_if (not (covered_once b64decode pools coverage)) value_error) _ e₃ in
    let (epoch, _, e₅) = >>=-eq-ok (staking_epoch staking_inner) _ e₄ in
    subst (Built b64decode pools staking_inner) (ok-injective _ _ e₅) (record {
      coverage = coverage;
      entries = entries;
      added = added;
      once =
          negated _
            (raise_if-eq-ok (not (covered_once b64decode pools coverage)) value_error covered);
    })

Built-claims :
    (b64decode : String → Result Bytes) (pools : Pools) (staking_inner : JsonDict)
    {c : WalrusCommittee} (s : ℕ)
    → s < pos_part c.n_shards
    → Built b64decode pools staking_inner c
    → claims s c.members ≡ 1
Built-claims b64decode pools staking_inner {c} s lt b =
    let n : ℕ = pos_part c.n_shards in
    let none_yet : ℕ = 0 in
    let fresh : List ℕ = replicate n 0 in
    let size : length fresh ≡ n = length-replicate n none_yet in
    let a : Adds (λ q. claims q c.members) fresh b.coverage =
      add_members-Adds c.n_shards b64decode pools b.entries fresh size b.added in
    let one : get_or b.coverage s 0 ≡ 1 =
      covered_once-at c.n_shards b64decode pools b.coverage s b.once
        (omega (arith, a.size, size)) in
    omega (arith, a.counts s, get_or-replicate n s none_yet, one)

Assigned-found :
    (c : WalrusCommittee) (s : ℕ)
    → s < pos_part c.n_shards
    → (a : Assigned s c.members (replicate (pos_part c.n_shards) (negsuc 0)) 0 (negsuc 0))
    → (position_for_shard c s ≡ ok (pos (a.place))) × (member_for_shard c s ≡ ok a.member)
unfolding position_for_shard position_by_shard member_for_shard member_at
Assigned-found c s lt a =
    let entry : position_for_shard c s ≡ ok (pos (a.place)) =
      rw (below c.n_shards s lt) (ap ok (a.entry ∙ ap pos (omega arith))) in
    (entry, rw entry (rw (a.listed, member_at) refl))

module _ (b64decode : String → Result Bytes) (pools : Pools) (staking_inner : JsonDict) where
  -- In a committee that build_committee returns, the members together claim each shard below the
  -- shard count exactly once, and position_for_shard and member_for_shard return the one who does.
  pub build_committee_covers :
      {c : WalrusCommittee} (s : ℕ)
      → build_committee b64decode pools staking_inner ≡ ok c
      → s < pos_part c.n_shards
      → (claims s c.members ≡ 1)
        × ((p : ℕ) × (m : WalrusCommitteeMember) × (position_for_shard c s ≡ ok (pos p))
            × (get_elem? c.members p ≡ some m)
            × (member_for_shard c s ≡ ok m)
            × (contains s m.shard_indices ≡ true))
  build_committee_covers {c} s e lt =
      let n = pos_part c.n_shards in
      let once =
        Built-claims b64decode pools staking_inner s lt
          (build_committee-Built b64decode pools staking_inner e) in
      let a =
        assigned s c.members (replicate n (negsuc 0)) 0 (negsuc 0)
          (omega (arith, length-replicate n (negsuc 0))) once in
      let (position, member) = Assigned-found c s lt a in
      (once, (a.place, a.member, position, a.listed, member, a.holds))
