-- ===== src/Quilt/Assembly/Unordered.antt =====
-- assemble_quilt of pytusk/core/encoding/quilt.py does not depend on the order of its patches.
use mathlib.Core.List.{Perm, Mem, mem-cons, mem-cons_self, not-mem-nil}
use mathlib.Core.List.Perm
use mathlib.Core.Logic.Or
use pytusk.Prelude.{
  ℕ, ◌≡◌, ◌≢◌, refl, ap, ◌∙◌, sym, subst, arith, true, List, [], ◌∷◌, map, length, inl, inr,
}
use pytusk.Prelude.Bytes.{bytes_eq_iff}
use pytusk.Prelude.Orders.{sum_by, sum_by-Perm}
use pytusk.Errors.{ok, raise_if, ◌>>◌, Result-cases, quilt_assembly}
use pytusk.Quilt.Patches.{Text, QuiltPatchInput, Bcs, validate_quilt_identifier}
use pytusk.Quilt.Patches.Order.{sorted-Perm, map-sorted_by}
use pytusk.Quilt.Assembly.{assemble_quilt, ordered, validated, is_seen}
use pytusk.Quilt.Assembly.RoundTrip.{AreValid, validated-AreValid, ordered-perm}

QuiltPatchInput-set : IsSet QuiltPatchInput
QuiltPatchInput-set = hlevel

abbrev name_of : QuiltPatchInput → Text
name_of patch = patch.identifier

-- Validation sees the identifiers only.
validated-names :
    (seen : List Text) (xs ys : List QuiltPatchInput)
    → map name_of xs ≡ map name_of ys
    → validated seen xs ≡ validated seen ys
unfolding validated
validated-names seen [] [] e = refl
validated-names seen [] (y ∷ ys) e = cc
validated-names seen (x ∷ xs) [] e = cc
validated-names seen (x ∷ xs) (y ∷ ys) e =
    let same : x.identifier ≡ y.identifier = cc in
    rw same (
      ap
        (λ r.
          validate_quilt_identifier y.identifier
          >> (raise_if (is_seen y.identifier seen) quilt_assembly >> r))
        (validated-names (y.identifier ∷ seen) xs ys (cc)))

-- No valid patch has the identifier of one seen before.
unseen_later :
    (seen : List Text) (patches : List QuiltPatchInput) (name : Text)
    → is_seen name seen ≡ true
    → AreValid seen patches
    → (x : QuiltPatchInput) → Mem x patches
    → x.identifier ≢ name
unfolding is_seen
unseen_later seen [] name s valid x m = absurd (not-mem-nil m)
unseen_later seen (p ∷ patches) name s (v, n, valid) x m =
    Or.elim (hlevel) (mem-cons.0 m) (λ e same. cc (e, same, s, n))
      (unseen_later (p.identifier ∷ seen) patches name (ground arith) valid x)

same_patches :
    (seen : List Text) (xs ys : List QuiltPatchInput)
    → map name_of xs ≡ map name_of ys
    → AreValid seen ys
    → Perm xs ys
    → xs ≡ ys
unfolding is_seen
same_patches seen [] [] e valid p = refl
same_patches seen [] (y ∷ ys) e valid p = cc
same_patches seen (x ∷ xs) [] e valid p = cc
same_patches seen (x ∷ xs) (y ∷ ys) e (v, n, valid) p =
    let names : x.identifier ≡ y.identifier = cc in
    let self = (bytes_eq_iff y.identifier y.identifier).1 refl in
    let head : x ≡ y =
      Or.elim (QuiltPatchInput-set x y) (mem-cons.0 ((Perm.mem_iff p).0 mem-cons_self)) (λ h. h)
        (λ m.
          absurd
            (unseen_later (y.identifier ∷ seen) ys y.identifier (rw self refl) valid x m names)) in
    let tail =
      same_patches (y.identifier ∷ seen) xs ys (cc) valid
        (Perm.cons_inv (subst (λ z. Perm (z ∷ xs) (y ∷ ys)) head p)) in
    cc

sum_by-length : (xs : List QuiltPatchInput) → sum_by (λ x. 1) xs ≡ length xs
sum_by-length [] = refl
sum_by-length (x ∷ xs) = omega (arith, sum_by-length xs)

ordered-names :
    (xs ys : List QuiltPatchInput)
    → Perm xs ys
    → map name_of (ordered xs) ≡ map name_of (ordered ys)
unfolding ordered
ordered-names xs ys p =
    map-sorted_by name_of xs
    ∙ sorted-Perm (map name_of xs) (map name_of ys) (Perm.map name_of p)
    ∙ sym (map-sorted_by name_of ys)

-- For patches with valid, distinct identifiers, the order is that of the identifiers alone.
ordered-Perm :
    (xs ys : List QuiltPatchInput)
    → Perm xs ys
    → validated [] (ordered ys) ≡ ok tt
    → ordered xs ≡ ordered ys
ordered-Perm xs ys p e =
    same_patches [] (ordered xs) (ordered ys) (ordered-names xs ys p)
      (validated-AreValid [] (ordered ys) e)
      (Perm.trans (ordered-perm xs) (Perm.trans p (Perm.symm (ordered-perm ys))))

module _ (bcs : Bcs) where
  -- The same patches in another order give the same quilt, or the same error.
  pub assemble_quilt-Perm :
      (patches others : List QuiltPatchInput) (n_shards : ℕ)
      → Perm patches others
      → assemble_quilt bcs patches n_shards ≡ assemble_quilt bcs others n_shards
  unfolding assemble_quilt
  assemble_quilt-Perm patches others n_shards p =
      let size : length patches ≡ length others =
        sym (sum_by-length patches)
        ∙ sum_by-Perm (λ x. 1) patches others p
        ∙ sum_by-length others in
      let same =
        validated-names [] (ordered patches) (ordered others) (ordered-names patches others p) in
      elim (Result-cases (validated [] (ordered others))) [
        | inl (e, r) ↦ rw (size, same, r) refl
        | inr (u, r) ↦ rw (size, ordered-Perm patches others p r) refl
      ]
