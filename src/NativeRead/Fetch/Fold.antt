-- ===== src/NativeRead/Fetch/Fold.antt =====
-- What the fold over a node's slivers keeps (pytusk/core/native_read/fetch.py): distinct slivers, and each
-- of them with a node that supplied it.
use mathlib.Core.List.{foldl}
use pytusk.Prelude.{
  ◌≤◌, ◌≡◌, refl, sym, ap, ◌∙◌, String, true, false, ◌||◌, List, [], ◌∷◌, ◌++◌, map, length,
  length-append, arith, Bool-cases, inl, inr, All,
}
use pytusk.Prelude.Bytes.{Bytes, bytes_eq, bytes_eq_iff}
use pytusk.NativeRead.Fetch.{Gathered, contains_bytes, sliver_of, fold_sliver}

abbrev pub IsDistinct : List Bytes → Type 0
IsDistinct [] = Unit {0}
IsDistinct (x ∷ xs) = (contains_bytes x xs ≡ false) × IsDistinct xs

abbrev pub slivers_in : Gathered → List Bytes
slivers_in g = map sliver_of g.collected

-- The set of seen slivers is that of the collected ones, which are distinct.
pub record IsGathered (g : Gathered) : Type 0 where
  pub seen_iff : (s : Bytes) → contains_bytes s g.seen ≡ contains_bytes s (slivers_in g)
  pub distinct : IsDistinct (slivers_in g)

pub contains-append :
    (s : Bytes) (xs ys : List Bytes)
    → contains_bytes s (xs ++ ys) ≡ (contains_bytes s xs || contains_bytes s ys)
contains-append s [] ys = refl
contains-append s (x ∷ xs) ys = ground (arith, contains-append s xs ys)

pub slivers-append :
    (xs ys : List (Bytes × String))
    → map sliver_of (xs ++ ys) ≡ map sliver_of xs ++ map sliver_of ys
slivers-append [] ys = refl
slivers-append (x ∷ xs) ys = ap (◌∷◌ (sliver_of x)) (slivers-append xs ys)

bytes_eq_sym : (x y : Bytes) → bytes_eq x y ≡ bytes_eq y x
bytes_eq_sym [] [] = refl
bytes_eq_sym [] (y ∷ ys) = refl
bytes_eq_sym (x ∷ xs) [] = refl
bytes_eq_sym (x ∷ xs) (y ∷ ys) = ground (arith, bytes_eq_sym xs ys)

IsDistinct-append :
    (xs : List Bytes) (s : Bytes)
    → IsDistinct xs
    → contains_bytes s xs ≡ false
    → IsDistinct (xs ++ (s ∷ []))
IsDistinct-append [] s d h = (refl, tt)
IsDistinct-append (x ∷ xs) s d h = (
  ground (arith, contains-append x xs (s ∷ []), bytes_eq_sym s x),
  IsDistinct-append xs s (d.1) (ground arith),
)

All-append : {A : Type 0} (P : A → Type 0) (xs ys : List A) → All P xs → All P ys → All P (xs ++ ys)
All-append P [] ys a b = b
All-append P (x ∷ xs) ys a b = (a.0, All-append P xs ys (a.1) b)

fold_sliver-IsGathered :
    (node_id : String) (g : Gathered) (s : Bytes)
    → IsGathered g
    → IsGathered (fold_sliver node_id g s)
unfolding fold_sliver
fold_sliver-IsGathered node_id g s is = elim (Bool-cases (contains_bytes s g.seen)) [
  | inl y ↦ rw y is
  | inr n ↦ rw n (record {
    seen_iff = λ r.
        rw (slivers-append g.collected ((s, node_id) ∷ []))
          (ground (arith, contains-append r (slivers_in g) (s ∷ []), is.seen_iff r));
    distinct =
        rw (slivers-append g.collected ((s, node_id) ∷ []))
          (IsDistinct-append (slivers_in g) s is.distinct (sym (is.seen_iff s) ∙ n));
  })
]

fold_sliver-has :
    (node_id : String) (g : Gathered) (s r : Bytes)
    → IsGathered g
    → contains_bytes r (slivers_in (fold_sliver node_id g s))
      ≡ (contains_bytes r (slivers_in g) || bytes_eq s r)
unfolding fold_sliver
fold_sliver-has node_id g s r is = elim (Bool-cases (contains_bytes s g.seen)) [
  | inl y ↦ rw y (elim (Bool-cases (bytes_eq s r)) [
    | inl same ↦
        let e : s ≡ r = (bytes_eq_iff s r).0 same in
        let there : contains_bytes r (slivers_in g) ≡ true = rw (← e) (sym (is.seen_iff s) ∙ y) in
        rw (same, there) refl
    | inr other ↦ ground arith
  ])
  | inr n ↦ rw n (
      rw (slivers-append g.collected ((s, node_id) ∷ []))
        (ground (arith, contains-append r (slivers_in g) (s ∷ []))))
]

fold_sliver-All :
    (P : Bytes × String → Type 0) (node_id : String) (g : Gathered) (s : Bytes)
    → P (s, node_id)
    → All P g.collected
    → All P ((fold_sliver node_id g s).collected)
unfolding fold_sliver
fold_sliver-All P node_id g s p all = elim (Bool-cases (contains_bytes s g.seen)) [
  | inl y ↦ rw y all
  | inr n ↦ rw n (All-append P g.collected ((s, node_id) ∷ []) all (p, tt))
]

fold_sliver-length :
    (node_id : String) (g : Gathered) (s : Bytes)
    → length g.collected ≤ length ((fold_sliver node_id g s).collected)
unfolding fold_sliver
fold_sliver-length node_id g s = elim (Bool-cases (contains_bytes s g.seen)) [
  | inl y ↦ rw y (omega arith)
  | inr n ↦ rw n (omega (arith, length-append g.collected ((s, node_id) ∷ [])))
]

-- What folding these slivers of a node makes of `g`.
pub record Grown (node_id : String) (slivers : List Bytes) (g after : Gathered) : Type 1 where
  pub gathered : IsGathered after
  pub has :
      (r : Bytes)
      → contains_bytes r (slivers_in after)
        ≡ (contains_bytes r (slivers_in g) || contains_bytes r slivers)
  pub served :
      (P : Bytes × String → Type 0)
      → ((s : Bytes) → contains_bytes s slivers ≡ true → P (s, node_id))
      → All P g.collected
      → All P after.collected
  pub longer : length g.collected ≤ length after.collected

pub fold_slivers-Grown :
    (node_id : String) (slivers : List Bytes) (g : Gathered)
    → IsGathered g
    → Grown node_id slivers g (foldl (fold_sliver node_id) g slivers)
fold_slivers-Grown node_id [] g is = record {
  gathered = is;
  has = λ r. ground arith;
  served = λ P h all. all;
  longer = omega arith;
}
fold_slivers-Grown node_id (s ∷ ss) g is =
    let next = fold_sliver node_id g s in
    let rest = fold_slivers-Grown node_id ss next (fold_sliver-IsGathered node_id g s is) in
    record {
      gathered = rest.gathered;
      has = λ r. ground (arith, rest.has r, fold_sliver-has node_id g s r is);
      served = λ P h all.
          rest.served P (λ r c. h r (ground arith))
            (fold_sliver-All P node_id g s (h s (ground (arith, (bytes_eq_iff s s).1 refl))) all);
      longer = omega (arith, rest.longer, fold_sliver-length node_id g s);
    }
