-- ===== src/NativeRead/Reconstruct/Slivers.antt =====
-- The slivers that reconstruct_blob (pytusk/core/native_read/reconstruct.py) decodes.
use pytusk.Prelude.{
  ◌+◌, ◌≤◌, ◌≡◌, refl, ◌∙◌, subst, String, Bool, true, false, ◌||◌, List, [], ◌∷◌, ◌++◌, map,
  length, arith, Bool-cases, inl, inr, if◌then◌else◌,
}
use pytusk.Prelude.Bytes.{Bytes, bytes_eq, bytes_eq_iff}
use pytusk.NativeRead.Fetch.{sliver_of, contains_bytes}
use pytusk.NativeRead.Fetch.Fold.{IsDistinct, contains-append, slivers-append}
use pytusk.Errors.{ok, >>=-eq-ok, ok-injective}
use pytusk.Redstuff.Codec.{Axis, Native, VerifiedBlobMetadata, verify_sliver}
use pytusk.NativeRead.Reconstruct.{
  usable, placed, partition_by_verification, Attributed, unseen, merge_distinct,
}

without : Bytes → List Bytes → List Bytes
without x [] = []
without x (y ∷ ys) = let rest = without x ys in if bytes_eq y x then ys else y ∷ rest

length-without :
    (x : Bytes) (ys : List Bytes)
    → contains_bytes x ys ≡ true
    → length (without x ys) + 1 ≡ length ys
unfolding without
length-without x [] h = cc
length-without x (y ∷ ys) h = elim (Bool-cases (bytes_eq y x)) [
  | inl e ↦ rw e (omega arith)
  | inr n ↦ rw n (omega (arith, length-without x ys (rw n at h)))
]

contains-without :
    (x s : Bytes) (ys : List Bytes)
    → bytes_eq x s ≡ false
    → contains_bytes s ys ≡ true
    → contains_bytes s (without x ys) ≡ true
unfolding without
contains-without x s [] ne h = cc
contains-without x s (y ∷ ys) ne h = elim (Bool-cases (bytes_eq y x)) [
  | inl e ↦
      let same : y ≡ x = (bytes_eq_iff y x).0 e in
      let other : bytes_eq y s ≡ false = rw same ne in rw e (rw other at h)
  | inr n ↦ rw n (ground (arith, contains-without x s ys ne))
]

-- Distinct slivers that all occur in a list are no more than it has.
pub distinct-length :
    (xs ys : List Bytes)
    → IsDistinct xs
    → ((s : Bytes) → contains_bytes s xs ≡ true → contains_bytes s ys ≡ true)
    → length xs ≤ length ys
distinct-length [] ys d h = omega arith
distinct-length (x ∷ xs) ys d h =
    let here : contains_bytes x ys ≡ true = h x (ground (arith, (bytes_eq_iff x x).1 refl)) in
    let rest =
      distinct-length xs (without x ys) (d.1)
        (λ s c. contains-without x s ys (apart s c (d.0)) (h s (ground arith))) in
    omega (arith, length-without x ys here)
  where
    apart :
        (s : Bytes)
        → contains_bytes s xs ≡ true
        → contains_bytes x xs ≡ false
        → bytes_eq x s ≡ false
    apart s c none_of_it = elim (Bool-cases (bytes_eq x s)) [
      | inl e ↦
          let same : x ≡ s = (bytes_eq_iff x s).0 e in
          let absent : contains_bytes s xs ≡ false = rw (← same) none_of_it in cc
      | inr n ↦ n
    ]

IsDistinct-join :
    (xs ys : List Bytes)
    → IsDistinct xs
    → IsDistinct ys
    → ((s : Bytes) → contains_bytes s xs ≡ true → contains_bytes s ys ≡ false)
    → IsDistinct (xs ++ ys)
IsDistinct-join [] ys d e apart = e
IsDistinct-join (x ∷ xs) ys d e apart = (
  ground (arith, contains-append x xs ys, d.0, apart x (ground (arith, (bytes_eq_iff x x).1 refl))),
  IsDistinct-join xs ys (d.1) e (λ s c. apart s (ground arith)),
)

-- The entries whose slivers were not seen.
record IsUnseen (seen : List Bytes) (entries left : Attributed) : Type 0 where
  distinct : IsDistinct (map sliver_of left)
  fresh : (s : Bytes) → contains_bytes s seen ≡ true → contains_bytes s (map sliver_of left) ≡ false
  kept :
      (s : Bytes)
      → contains_bytes s (map sliver_of entries) ≡ true
      → (contains_bytes s seen || contains_bytes s (map sliver_of left)) ≡ true

unseen-IsUnseen :
    (seen : List Bytes) (entries : Attributed) → IsUnseen seen entries (unseen seen entries)
unfolding unseen
unseen-IsUnseen seen [] = record { distinct = tt; fresh = λ s c. refl; kept = λ s c. cc }
unseen-IsUnseen seen ((sliver, node_id) ∷ rest) = elim (Bool-cases (contains_bytes sliver seen)) [
  | inl y ↦
      let skip = unseen-IsUnseen seen rest in
      rw y (record {
        distinct = skip.distinct;
        fresh = skip.fresh;
        kept = λ s c. elim (Bool-cases (bytes_eq sliver s)) [
          | inl e ↦
              let there : contains_bytes s seen ≡ true = rw (← (bytes_eq_iff sliver s).0 e) y in
              rw there refl
          | inr n ↦ skip.kept s (rw n at c)
        ];
      })
  | inr m ↦
      let keep = unseen-IsUnseen (sliver ∷ seen) rest in
      rw m (record {
        distinct = (
          keep.fresh sliver (ground (arith, (bytes_eq_iff sliver sliver).1 refl)),
          keep.distinct,
        );
        fresh = λ s c. elim (Bool-cases (bytes_eq sliver s)) [
          | inl e ↦
              let absent : contains_bytes s seen ≡ false = rw (← (bytes_eq_iff sliver s).0 e) m in
              cc
          | inr n ↦ rw n (keep.fresh s (rw n c))
        ];
        kept = λ s c. elim (Bool-cases (bytes_eq sliver s)) [
          | inl e ↦ rw e (ground arith)
          | inr n ↦ rw n (ground (arith, keep.kept s (rw n at c)))
        ];
      })
]

-- What the merge of two lists has.
pub merge_distinct-IsDistinct :
    (first second : Attributed)
    → IsDistinct (map sliver_of first)
    → IsDistinct (map sliver_of (merge_distinct first second))
unfolding merge_distinct
merge_distinct-IsDistinct first second d =
    let rest = unseen-IsUnseen (map sliver_of first) second in
    rw (slivers-append first (unseen (map sliver_of first) second))
      (IsDistinct-join (map sliver_of first) _ d rest.distinct rest.fresh)

pub merge_distinct-has :
    (first second : Attributed) (s : Bytes)
    → contains_bytes s (map sliver_of second) ≡ true
    → contains_bytes s (map sliver_of (merge_distinct first second)) ≡ true
unfolding merge_distinct
merge_distinct-has first second s c =
    let rest = unseen-IsUnseen (map sliver_of first) second in
    rw (slivers-append first (unseen (map sliver_of first) second))
      (contains-append s (map sliver_of first) _ ∙ rest.kept s c)

module _ {Pair Handle : Type 0} (native : Native Pair Handle)
    (metadata : VerifiedBlobMetadata Handle) (axis : Axis) where
  -- The verified slivers are among those parted.
  pub record IsParted (attributed verified : Attributed) : Type 0 where
    pub distinct : IsDistinct (map sliver_of attributed) → IsDistinct (map sliver_of verified)
    pub among :
        (s : Bytes)
        → contains_bytes s (map sliver_of attributed) ≡ false
        → contains_bytes s (map sliver_of verified) ≡ false

  pub partition-IsParted :
      (attributed : Attributed) {out : Attributed × List String}
      → partition_by_verification native metadata axis attributed ≡ ok out
      → IsParted attributed (out.0)
  unfolding partition_by_verification
  partition-IsParted [] {out} e =
      subst (λ (o : Attributed × List String). IsParted [] (o.0)) (ok-injective _ _ e)
        (record { distinct = λ d. d; among = λ s c. c })
  partition-IsParted ((sliver, node_id) ∷ rest) {out} e =
      let (good, _, e₁) =
        >>=-eq-ok (usable native metadata axis (verify_sliver native sliver metadata axis)) _ e in
      let ((verified, indicted), parted, e₂) =
        >>=-eq-ok (partition_by_verification native metadata axis rest) _ e₁ in
      let p = partition-IsParted rest parted in
      subst (λ (o : Attributed × List String). IsParted ((sliver, node_id) ∷ rest) (o.0))
        (ok-injective _ _ e₂) (by_use good verified indicted p)
    where
      by_use :
          (good : Bool) (verified : Attributed) (indicted : List String)
          → IsParted rest verified
          → IsParted
              ((sliver, node_id) ∷ rest)
              ((placed good (sliver, node_id) verified indicted).0)
      by_use true verified indicted p = record {
        distinct = λ d. (p.among sliver (d.0), p.distinct (d.1));
        among = λ s c. ground (arith, p.among s);
      }
      by_use false verified indicted p = record {
        distinct = λ d. p.distinct (d.1);
        among = λ s c. p.among s (ground arith);
      }
