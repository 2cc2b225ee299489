-- ===== src/Committee/Table.antt =====
-- The position table of WalrusCommittee (pytusk/core/chain/committee.py), for a shard that is claimed once.
use pytusk.Prelude.{
  ℕ, suc, ◌+◌, ◌≤◌, ◌<◌, ◌≡◌, refl, ap, ◌∙◌, Bool, true, false, some, List, [], ◌∷◌, length, get_or,
  get_elem?, set, ◌==◌, if◌then◌else◌, contains, arith, length-set, get_or-set_self, get_or-set_ne,
  Bool-cases, inl, inr, ==_iff,
}
use pytusk.Prelude.Int.{ℤ, pos}
use pytusk.Committee.Json.{}
use pytusk.Committee.Members.{WalrusCommitteeMember, fill_member, fill_table}
use pytusk.Committee.Build.{}
use pytusk.Committee.Coverage.{count, claims, count-contains, not_counted}

if_same : {A : Type 0} (b : Bool) (x : A) → (if b then x else x) ≡ x
if_same true x = refl
if_same false x = refl

absent_of : {n : ℕ} (b : Bool) → (if b then 1 else 0) ≤ n → n ≡ 0 → b ≡ false
absent_of b le h = ground arith

-- The position table that the members write.
fill_member-get :
    (t : List ℤ) (p : ℕ) (shards : List ℕ) (s : ℕ) (d : ℤ)
    → s < length t
    → get_or (fill_member t p shards) s d ≡ (if contains s shards then pos p else get_or t s d)
unfolding fill_member
fill_member-get t p [] s d lt = refl
fill_member-get t p (q ∷ qs) s d lt =
    let rest = fill_member-get (set t q (pos p)) p qs s d (omega (arith, length-set t q (pos p))) in
    elim (Bool-cases (q == s)) [
      | inl y ↦
          let same : q ≡ s = (==_iff q s).0 y in
          let here : get_or (set t q (pos p)) s d ≡ pos p =
            rw same (get_or-set_self t s (pos p) d lt) in
          rw y (rest ∙ (rw here (if_same (contains s qs) (pos p))))
      | inr n ↦ rw n (
          rest
          ∙ ap (λ x. if contains s qs then pos p else x)
              (get_or-set_ne t q s (pos p) d (ground arith)))
    ]

length-fill_member :
    (t : List ℤ) (p : ℕ) (shards : List ℕ) → length (fill_member t p shards) ≡ length t
unfolding fill_member
length-fill_member t p [] = refl
length-fill_member t p (q ∷ qs) = length-fill_member (set t q (pos p)) p qs ∙ length-set t q (pos p)

unclaimed :
    (s : ℕ) (ms : List WalrusCommitteeMember) (t : List ℤ) (p : ℕ) (d : ℤ)
    → s < length t
    → claims s ms ≡ 0
    → get_or (fill_table t p ms) s d ≡ get_or t s d
unfolding fill_table
unclaimed s [] t p d lt h = refl
unclaimed s (m ∷ ms) t p d lt h =
    let absent : contains s m.shard_indices ≡ false =
      absent_of (contains s m.shard_indices) (count-contains s m.shard_indices) (omega arith) in
    unclaimed s ms (fill_member t p m.shard_indices) (p + 1) d
      (omega (arith, length-fill_member t p m.shard_indices)) (omega arith)
    ∙ fill_member-get t p m.shard_indices s d lt
    ∙ rw absent refl

-- The member with a shard, and the entry that the table has for it.
pub record Assigned (s : ℕ) (ms : List WalrusCommitteeMember) (t : List ℤ) (p : ℕ) (d : ℤ)
    : Type 0 where
  pub place : ℕ
  pub member : WalrusCommitteeMember
  pub listed : get_elem? ms place ≡ some member
  pub holds : contains s member.shard_indices ≡ true
  pub entry : get_or (fill_table t p ms) s d ≡ pos (p + place)

pub assigned :
    (s : ℕ) (ms : List WalrusCommitteeMember) (t : List ℤ) (p : ℕ) (d : ℤ)
    → s < length t
    → claims s ms ≡ 1
    → Assigned s ms t p d
unfolding fill_table
assigned s [] t p d lt h = absurd (omega arith)
assigned s (m ∷ ms) t p d lt h =
    let u = fill_member t p m.shard_indices in
    let longer : s < length u = omega (arith, length-fill_member t p m.shard_indices) in
    elim (Bool-cases (contains s m.shard_indices)) [
      | inl y ↦
          let once : 1 ≤ count s m.shard_indices =
            ground (arith, count-contains s m.shard_indices) in
          record {
            place = 0;
            member = m;
            listed = refl;
            holds = y;
            entry =
                unclaimed s ms u (p + 1) d longer (omega arith)
                ∙ fill_member-get t p m.shard_indices s d lt
                ∙ rw y (ap pos (omega arith));
          }
      | inr n ↦
          let rest =
            assigned s ms u (p + 1) d longer (omega (arith, not_counted s m.shard_indices n)) in
          record {
            place = suc (rest.place);
            member = rest.member;
            listed = rest.listed;
            holds = rest.holds;
            entry = rest.entry ∙ ap pos (omega arith);
          }
    ]
