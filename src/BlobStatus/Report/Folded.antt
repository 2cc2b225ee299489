-- ===== src/BlobStatus/Report/Folded.antt =====
-- The dicts that the fold over the answers fills (pytusk/core/ops/blob_status.py).
use mathlib.Core.Option.{some-injective}
use text.Mathlib.Text.{◌==◌ as str_eq}
use pytusk.Prelude.{
  ℕ, zero, suc, ◌+◌, ◌≡◌, refl, ap, ◌∙◌, subst, String, Bool, true, false, ◌||◌, some, List, [],
  ◌∷◌, get_elem?, arith, Bool-cases, inl, inr, if◌then◌else◌,
}
use pytusk.Prelude.Orders.{sum_by, sum_by-append}
use pytusk.Committee.Members.{WalrusCommitteeMember}
use pytusk.BlobStatus.{BlobStatus, Weights}
use pytusk.BlobStatus.Report.{
  DissentReason, NodeRef, NodeDissent, status_eq, NodesByStatus, add_weight, add_node, Opinions,
  confirming_nodes, dissents, dissenting_nodes, reason_of,
}
use pytusk.BlobStatus.Report.Equality.{status_eq_same, status_eq_refl}

-- How often a node ID occurs.
abbrev pub hit : String → String → ℕ
hit n i = if str_eq i n then 1 else 0

abbrev pub times : String → List NodeRef → ℕ
times n nodes = sum_by (λ r. hit n r.node_id) nodes

abbrev pub dissent_times : String → List NodeDissent → ℕ
dissent_times n ds = sum_by (λ d. hit n d.node.node_id) ds

abbrev pub member_times : String → List WalrusCommitteeMember → ℕ
member_times n ms = sum_by (λ m. hit n m.node_id) ms

abbrev status_times : String → NodesByStatus → ℕ
status_times n [] = 0
status_times n ((s, nodes) ∷ rest) = times n nodes + status_times n rest

abbrev pub all_times : String → Opinions → ℕ
all_times n o = status_times n o.nodes_by_status + dissent_times n o.failures

abbrev pub weight_of : List NodeRef → ℕ
weight_of nodes = sum_by (λ r. r.weight) nodes

abbrev pub weigh : NodesByStatus → Weights
weigh [] = []
weigh ((s, nodes) ∷ rest) = (s, weight_of nodes) ∷ weigh rest

-- No status twice.
abbrev holds_status : BlobStatus → NodesByStatus → Bool
holds_status s [] = false
holds_status s ((t, nodes) ∷ rest) = status_eq t s || holds_status s rest

abbrev AreApart : NodesByStatus → Type 0
AreApart [] = Unit {0}
AreApart ((s, nodes) ∷ rest) = (holds_status s rest ≡ false) × AreApart rest

pub record IsFolded (o : Opinions) : Type 0 where
  pub apart : AreApart o.nodes_by_status
  pub weighed : o.weight_by_status ≡ weigh o.nodes_by_status

pub add_node-times :
    (n : String) (status : BlobStatus) (node : NodeRef) (entries : NodesByStatus)
    → status_times n (add_node status node entries) ≡ status_times n entries + hit n node.node_id
unfolding add_node
add_node-times n status node [] = omega arith
add_node-times n status node ((s, nodes) ∷ rest) = elim (Bool-cases (status_eq s status)) [
  | inl y ↦ rw y (omega (arith, sum_by-append (λ (r : NodeRef). hit n r.node_id) nodes (node ∷ [])))
  | inr other ↦ rw other (omega (arith, add_node-times n status node rest))
]

add_node-holds :
    (t status : BlobStatus) (node : NodeRef) (entries : NodesByStatus)
    → holds_status t (add_node status node entries) ≡ (status_eq status t || holds_status t entries)
unfolding add_node
add_node-holds t status node [] = refl
add_node-holds t status node ((s, nodes) ∷ rest) = elim (Bool-cases (status_eq s status)) [
  | inl y ↦
      let e : s ≡ status = status_eq_same s status y in
      rw y (
        subst
          (λ u.
            (status_eq s t || holds_status t rest)
            ≡ (status_eq u t || (status_eq s t || holds_status t rest)))
          e (ground arith))
  | inr other ↦ rw other (ground (arith, add_node-holds t status node rest))
]

pub add_node-AreApart :
    (status : BlobStatus) (node : NodeRef) (entries : NodesByStatus)
    → AreApart entries
    → AreApart (add_node status node entries)
unfolding add_node
add_node-AreApart status node [] apart = (refl, tt)
add_node-AreApart status node ((s, nodes) ∷ rest) (new, apart) =
    elim (Bool-cases (status_eq s status)) [
      | inl y ↦ rw y (new, apart)
      | inr other ↦
          let differs : status_eq status s ≡ false = elim (Bool-cases (status_eq status s)) [
            | inl eq ↦ cc (other, status_eq_refl s, status_eq_same status s eq)
            | inr ne ↦ ne
          ] in
          rw other (
            add_node-holds s status node rest ∙ ground (arith, new, differs),
            add_node-AreApart status node rest apart,
          )
    ]

pub add_weight-weigh :
    (status : BlobStatus) (node : NodeRef) (entries : NodesByStatus)
    → add_weight status node.weight (weigh entries) ≡ weigh (add_node status node entries)
unfolding add_weight add_node
add_weight-weigh status node [] = ap (λ (w : ℕ). (status, w) ∷ []) (omega arith)
add_weight-weigh status node ((s, nodes) ∷ rest) = elim (Bool-cases (status_eq s status)) [
  | inl y ↦ rw y (
      ap (λ (w : ℕ). (s, w) ∷ weigh rest)
        (omega (arith, sum_by-append (λ (r : NodeRef). r.weight) nodes (node ∷ []))))
  | inr other ↦ rw other (ap (◌∷◌ (s, weight_of nodes)) (add_weight-weigh status node rest))
]

-- The verdict's nodes and the others are all of them.
pub split-times :
    (n : String) (verdict : BlobStatus) (entries : NodesByStatus)
    → AreApart entries
    → times n (confirming_nodes verdict entries)
        + dissent_times n (dissenting_nodes verdict entries)
      ≡ status_times n entries
unfolding confirming_nodes dissenting_nodes
split-times n verdict [] apart = omega arith
split-times n verdict ((s, nodes) ∷ rest) (new, apart) = elim (Bool-cases (status_eq s verdict)) [
  | inl y ↦
      let e : s ≡ verdict = status_eq_same s verdict y in
      let later : times n (confirming_nodes verdict rest) ≡ 0 =
        none_confirm verdict rest (subst (λ v. holds_status v rest ≡ false) e new) in
      rw y (omega (arith, later, split-times n verdict rest apart))
  | inr other ↦ rw other (
      omega (
        arith,
        split-times n verdict rest apart,
        dissents-times (reason_of s) nodes,
        sum_by-append (λ (d : NodeDissent). hit n d.node.node_id) (dissents (reason_of s) nodes)
            (dissenting_nodes verdict rest),
      ))
]
  where
    none_confirm :
        (v : BlobStatus) (es : NodesByStatus)
        → holds_status v es ≡ false
        → times n (confirming_nodes v es) ≡ 0
    none_confirm v [] e = refl
    none_confirm v ((t, ts) ∷ es) e = elim (Bool-cases (status_eq t v)) [
      | inl y ↦ cc (rw y at e)
      | inr other ↦ rw other (none_confirm v es (ground arith))
    ]

    dissents-times :
        (reason : DissentReason) (rs : List NodeRef)
        → dissent_times n (dissents reason rs) ≡ times n rs
    dissents-times reason [] = refl
    dissents-times reason (r ∷ rs) = omega (arith, dissents-times reason rs)

-- The nodes of a status that is listed with a weight have this weight.
pub confirming-weight :
    (verdict : BlobStatus) (i weight : ℕ) (entries : NodesByStatus)
    → AreApart entries
    → get_elem? (weigh entries) i ≡ some (verdict, weight)
    → weight_of (confirming_nodes verdict entries) ≡ weight
unfolding confirming_nodes
confirming-weight verdict i weight [] apart e = cc
confirming-weight verdict zero weight ((s, nodes) ∷ rest) (new, apart) e =
    let pair : (s, weight_of nodes) ≡ (verdict, weight) = some-injective _ _ e in
    let same : s ≡ verdict = ap (λ (p : BlobStatus × ℕ). p.0) pair in
    let weighs : weight_of nodes ≡ weight = ap (λ (p : BlobStatus × ℕ). p.1) pair in
    let here : status_eq s verdict ≡ true =
      subst (λ v. status_eq s v ≡ true) same (status_eq_refl s) in
    rw here weighs
confirming-weight verdict (suc i) weight ((s, nodes) ∷ rest) (new, apart) e =
    elim (Bool-cases (status_eq s verdict)) [
      | inl y ↦
          let same : s ≡ verdict = status_eq_same s verdict y in
          cc (subst (λ v. holds_status v rest ≡ false) same new, listed-holds i rest e)
      | inr other ↦ rw other (confirming-weight verdict i weight rest apart e)
    ]
  where
    listed-holds :
        (j : ℕ) (es : NodesByStatus)
        → get_elem? (weigh es) j ≡ some (verdict, weight)
        → holds_status verdict es ≡ true
    listed-holds j [] eq = cc
    listed-holds zero ((t, ts) ∷ es) eq =
        let same : t ≡ verdict = ap (λ (p : BlobStatus × ℕ). p.0) (some-injective _ _ eq) in
        let here : status_eq t verdict ≡ true =
          subst (λ v. status_eq t v ≡ true) same (status_eq_refl t) in
        ground arith
    listed-holds (suc j) ((t, ts) ∷ es) eq = ground (arith, listed-holds j es eq)
