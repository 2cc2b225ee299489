-- ===== src/NativeUpload/Slivers/Targets.antt =====
-- The nodes that upload_slivers starts a task for (pytusk/core/native_upload/fanout.py).
use text.Mathlib.Text.{◌==◌ as str_eq}
use text.Mathlib.TextEquality.{eq_iff as str_eq_iff}
use pytusk.Prelude.{
  ℕ, zero, suc, ◌+◌, ◌-◌, ◌≡◌, refl, ◌∙◌, subst, String, Bool, true, false, ◌||◌, some, List, [],
  ◌∷◌, map, length, ltb, get_elem?, arith, All, Bool-cases, Option-cases, inl, inr,
}
use pytusk.Prelude.Int.{ℤ, pos, negsuc, pos_part}
use pytusk.Prelude.Orders.{any}
use pytusk.Errors.{ok, >>=-eq-ok, ok-injective}
use pytusk.Committee.Members.{
  WalrusCommitteeMember, WalrusCommittee, position_by_node_id, position_of, position_for_shard,
  member_at, member_for_shard,
}
use pytusk.NativeUpload.Slivers.{
  add_shard, group_shards, shards_by_node, member_by_node_id, members_of, targets,
}

abbrev pub id_of : WalrusCommitteeMember → String
id_of m = m.node_id

-- Whether a node ID is among these, and among the members.
abbrev pub among_ids : String → List String → Bool
among_ids n ids = any (λ i. str_eq i n) ids

abbrev pub is_member : List WalrusCommitteeMember → String → Bool
is_member ms n = any (λ m. str_eq m.node_id n) ms

abbrev pub AreDistinct : List String → Type 0
AreDistinct [] = Unit {0}
AreDistinct (i ∷ ids) = (among_ids i ids ≡ false) × AreDistinct ids

abbrev keys : List (String × List ℕ) → List String
keys [] = []
keys ((node_id, shards) ∷ rest) = node_id ∷ keys rest

same_id : (a b : String) → str_eq a b ≡ true → a ≡ b
same_id a b e = (str_eq_iff a b).0 e

id_refl : (a : String) → str_eq a a ≡ true
id_refl a = (str_eq_iff a a).1 refl

-- What adding a shard does to the keys.
among-add_shard :
    (i n : String) (s : ℕ) (g : List (String × List ℕ))
    → among_ids i (keys (add_shard n s g)) ≡ (str_eq n i || among_ids i (keys g))
unfolding add_shard
among-add_shard i n s [] = refl
among-add_shard i n s ((k, shards) ∷ rest) = elim (Bool-cases (str_eq k n)) [
  | inl y ↦
      let e : k ≡ n = same_id k n y in
      rw y (
        subst
          (λ m.
            (str_eq k i || among_ids i (keys rest))
            ≡ (str_eq m i || (str_eq k i || among_ids i (keys rest))))
          e (ground arith))
  | inr other ↦ rw other (ground (arith, among-add_shard i n s rest))
]

AreDistinct-add_shard :
    (n : String) (s : ℕ) (g : List (String × List ℕ))
    → AreDistinct (keys g)
    → AreDistinct (keys (add_shard n s g))
unfolding add_shard
AreDistinct-add_shard n s [] d = (refl, tt)
AreDistinct-add_shard n s ((k, shards) ∷ rest) (new, d) = elim (Bool-cases (str_eq k n)) [
  | inl y ↦ rw y (new, d)
  | inr other ↦
      let apart : str_eq n k ≡ false = elim (Bool-cases (str_eq n k)) [
        | inl eq ↦ cc (other, id_refl k, same_id n k eq)
        | inr ne ↦ ne
      ] in
      rw other
        (among-add_shard k n s rest ∙ ground (arith, new, apart), AreDistinct-add_shard n s rest d)
]

All-add_shard :
    (ms : List WalrusCommitteeMember) (n : String) (s : ℕ) (g : List (String × List ℕ))
    → is_member ms n ≡ true
    → All (λ i. is_member ms i ≡ true) (keys g)
    → All (λ i. is_member ms i ≡ true) (keys (add_shard n s g))
unfolding add_shard
All-add_shard ms n s [] known all = (known, tt)
All-add_shard ms n s ((k, shards) ∷ rest) known (first, all) = elim (Bool-cases (str_eq k n)) [
  | inl y ↦ rw y (first, all)
  | inr other ↦ rw other (first, All-add_shard ms n s rest known all)
]

get_elem-is_member :
    (ms : List WalrusCommitteeMember) (i : ℕ) {m : WalrusCommitteeMember}
    → get_elem? ms i ≡ some m
    → is_member ms m.node_id ≡ true
get_elem-is_member [] i e = cc
get_elem-is_member (x ∷ xs) zero {m} e =
    let same : x ≡ m = cc e in rw same (rw (id_refl m.node_id) refl)
get_elem-is_member (x ∷ xs) (suc i) {m} e = ground (arith, get_elem-is_member xs i e)

member_at-is_member :
    (ms : List WalrusCommitteeMember) (p : ℤ) {m : WalrusCommitteeMember}
    → member_at ms p ≡ ok m
    → is_member ms m.node_id ≡ true
unfolding member_at
member_at-is_member ms (pos p) {m} e = elim (Option-cases (get_elem? ms p)) [
  | inl n ↦ cc (rw (n, member_at) at e)
  | inr (found, y) ↦
      let same = ok-injective _ _ (rw (y, member_at) at e) in
      rw (← same) (get_elem-is_member ms p y)
]
member_at-is_member ms (negsuc p) {m} e = elim (Bool-cases (ltb p (length ms))) [
  | inl within ↦ elim (Option-cases (get_elem? ms (length ms - suc p))) [
    | inl n ↦ cc (rw n at (rw (within, member_at) at e))
    | inr (found, y) ↦
        let same = ok-injective _ _ (rw y at (rw (within, member_at) at e)) in
        rw (← same) (get_elem-is_member ms (length ms - suc p) y)
  ]
  | inr beyond ↦ cc (rw (beyond, member_at) at e)
]

member_for_shard-is_member :
    (committee : WalrusCommittee) (s : ℕ) {m : WalrusCommitteeMember}
    → member_for_shard committee s ≡ ok m
    → is_member committee.members m.node_id ≡ true
unfolding member_for_shard
member_for_shard-is_member committee s e =
    let (p, _, found) = >>=-eq-ok (position_for_shard committee s) _ e in
    member_at-is_member committee.members p found

-- The node of each of these shards is among the IDs.
abbrev Covers : WalrusCommittee → ℕ → ℕ → List String → Type 0
Covers committee zero s ids = Unit {0}
Covers committee (suc left) s ids =
    ((m : WalrusCommitteeMember) × (member_for_shard committee s ≡ ok m)
      × (among_ids m.node_id ids ≡ true))
    × Covers committee left (s + 1) ids

-- What the loop over the shards makes of the keys.
record Grouped (committee : WalrusCommittee) (left s : ℕ) (before after : List (String × List ℕ))
    : Type 0 where
  distinct : AreDistinct (keys after)
  known : All (λ i. is_member committee.members i ≡ true) (keys after)
  kept : (i : String) → among_ids i (keys before) ≡ true → among_ids i (keys after) ≡ true
  covers : Covers committee left s (keys after)

group_shards-Grouped :
    (committee : WalrusCommittee) (left s : ℕ) (g : List (String × List ℕ))
    {after : List (String × List ℕ)}
    → AreDistinct (keys g)
    → All (λ i. is_member committee.members i ≡ true) (keys g)
    → group_shards committee left s g ≡ ok after
    → Grouped committee left s g after
unfolding group_shards
group_shards-Grouped committee zero s g {after} d known e =
    subst (Grouped committee zero s g) (ok-injective _ _ e)
      (record { distinct = d; known = known; kept = λ i h. h; covers = tt })
group_shards-Grouped committee (suc left) s g {after} d known e =
    let (m, found, e₁) = >>=-eq-ok (member_for_shard committee s) _ e in
    let here = member_for_shard-is_member committee s found in
    let later =
      group_shards-Grouped committee left (s + 1) (add_shard m.node_id s g) {after = after}
        (AreDistinct-add_shard m.node_id s g d)
        (All-add_shard committee.members m.node_id s g here known) e₁ in
    let self = id_refl m.node_id in
    record {
      distinct = later.distinct;
      known = later.known;
      kept = λ i h. later.kept i (among-add_shard i m.node_id s g ∙ ground (arith, h));
      covers = (
        (
          m,
          found,
          later.kept m.node_id (among-add_shard m.node_id m.node_id s g ∙ ground (arith, self)),
        ),
        later.covers,
      );
    }

-- The lookups of a member's node ID.
member_by_node_id-found :
    (n : String) (ms : List WalrusCommitteeMember)
    → is_member ms n ≡ true
    → (m : WalrusCommitteeMember) × (member_by_node_id n ms ≡ some m) × (m.node_id ≡ n)
unfolding member_by_node_id
member_by_node_id-found n [] e = cc
member_by_node_id-found n (m ∷ ms) e = elim (Bool-cases (is_member ms n)) [
  | inl later ↦
      let (found, eq, same) = member_by_node_id-found n ms later in
      (found, rw (eq, member_by_node_id) refl, same)
  | inr last ↦
      let here : str_eq m.node_id n ≡ true = ground arith in
      elim (Option-cases (member_by_node_id n ms)) [
        | inl none_later ↦
            (m, rw (none_later, member_by_node_id) (rw here refl), same_id m.node_id n here)
        | inr (found, y) ↦ (found, rw (y, member_by_node_id) refl, by_found ms found y)
      ]
]
  where
    by_found :
        (xs : List WalrusCommitteeMember) (found : WalrusCommitteeMember)
        → member_by_node_id n xs ≡ some found
        → found.node_id ≡ n
    by_found [] found y = cc
    by_found (x ∷ xs) found y = elim (Option-cases (member_by_node_id n xs)) [
      | inr (other, z) ↦ by_found xs found (z ∙ (rw (z, member_by_node_id) at y))
      | inl z ↦ elim (Bool-cases (str_eq x.node_id n)) [
        | inl here ↦
            let same : x ≡ found = cc (rw here at (rw (z, member_by_node_id) at y)) in
            rw (← same) (same_id x.node_id n here)
        | inr away ↦ cc (rw away at (rw (z, member_by_node_id) at y))
      ]
    ]

position_by_node_id-found :
    (n : String) (k : ℕ) (ms : List WalrusCommitteeMember)
    → is_member ms n ≡ true
    → (p : ℕ) × (position_by_node_id n k ms ≡ some p)
unfolding position_by_node_id
position_by_node_id-found n k [] e = cc
position_by_node_id-found n k (m ∷ ms) e = elim (Option-cases (position_by_node_id n (k + 1) ms)) [
  | inr (p, y) ↦ (p, rw (y, position_by_node_id) refl)
  | inl none_later ↦ elim (Bool-cases (is_member ms n)) [
    | inl later ↦ let (p, y) = position_by_node_id-found n (k + 1) ms later in cc (y, none_later)
    | inr last ↦
        let here : str_eq m.node_id n ≡ true = ground arith in
        (k, rw (none_later, position_by_node_id) (rw here refl))
  ]
]

pub is_member-placed :
    (committee : WalrusCommittee) (n : String)
    → is_member committee.members n ≡ true
    → (p : ℕ) × (position_of committee n ≡ ok p)
unfolding position_of
is_member-placed committee n e =
    let (p, y) = position_by_node_id-found n 0 committee.members e in (p, rw (y, position_of) refl)

members_of-ids :
    (ms : List WalrusCommitteeMember) (g : List (String × List ℕ))
    → All (λ i. is_member ms i ≡ true) (keys g)
    → (found : List WalrusCommitteeMember) × (members_of ms g ≡ ok found)
      × (map id_of found ≡ keys g)
unfolding members_of
members_of-ids ms [] known = ([], refl, refl)
members_of-ids ms ((n, shards) ∷ rest) (known, all) =
    let (m, eq, same) = member_by_node_id-found n ms known in
    let (found, eqs, ids) = members_of-ids ms rest all in
    (m ∷ found, rw (eq, members_of) (rw eqs refl), cc (same, ids))

-- The nodes that get a task, in a committee that has a member for every shard: no node ID twice, all
-- of them with a position, and the node of each shard among them.
pub record AreTargets (committee : WalrusCommittee) (members : List WalrusCommitteeMember)
    : Type 0 where
  pub distinct : AreDistinct (map id_of members)
  pub known : All (λ i. is_member committee.members i ≡ true) (map id_of members)
  pub covers : Covers committee (pos_part committee.n_shards) 0 (map id_of members)

-- When each shard has a member, upload_slivers finds its tasks' members without an error: no node
-- twice, only nodes of the committee, and the node of every shard.
pub targets-AreTargets :
    (committee : WalrusCommittee) {grouped : List (String × List ℕ)}
    → shards_by_node committee ≡ ok grouped
    → (members : List WalrusCommitteeMember) × (targets committee ≡ ok members)
      × AreTargets committee members
unfolding targets shards_by_node
targets-AreTargets committee {grouped} e =
    let g =
      group_shards-Grouped committee (pos_part committee.n_shards) 0 [] {after = grouped} tt tt e in
    let (found, eq, ids) = members_of-ids committee.members grouped g.known in
    (
      found,
      rw e eq,
      record { distinct = rw ids g.distinct; known = rw ids g.known; covers = rw ids g.covers },
    )
