-- ===== src/BlobStatus/Report/Counted.antt =====
-- The fold over the answers counts each member once (pytusk/core/ops/blob_status.py).
use mathlib.Core.List.{foldl}
use text.Mathlib.Text.{◌==◌ as str_eq}
use text.Mathlib.TextEquality.{eq_iff as str_eq_iff}
use pytusk.Prelude.{
  ◌+◌, ◌≤◌, ◌≡◌, refl, ap, String, Bool, true, false, ◌||◌, List, [], ◌∷◌, ◌++◌, arith, Bool-cases,
  ◌⊎◌, inl, inr, if◌then◌else◌,
}
use pytusk.Prelude.Orders.{any, any-append, sum_by-append}
use pytusk.Committee.Members.{WalrusCommitteeMember}
use pytusk.BlobStatus.{}
use pytusk.BlobStatus.Report.{
  DissentReason, error, not_checked, NodeDissent, node_ref, StatusAnswer, found, unusable, raised,
  was_cancelled, Opinions, fail, add_opinion, is_answered, unchecked,
}
use pytusk.BlobStatus.Report.Folded.{
  hit, dissent_times, member_times, all_times, IsFolded, add_node-times, add_node-AreApart,
  add_weight-weigh,
}

abbrev pub any_id : String → List WalrusCommitteeMember → Bool
any_id n ms = any (λ m. str_eq m.node_id n) ms

-- What folding these members makes of `o`: each of them counts once more, and has answered.
pub record Extends (ms : List WalrusCommitteeMember) (o after : Opinions) : Type 0 where
  pub counts : (n : String) → all_times n after ≡ all_times n o + member_times n ms
  pub answers :
      (n : String) → is_answered n after.answered ≡ (any_id n ms || is_answered n o.answered)
  pub folded : IsFolded after

pub fail-Extends :
    (m : WalrusCommitteeMember) (reason : DissentReason) (o : Opinions)
    → IsFolded o
    → Extends (m ∷ []) o (fail m reason o)
fail-Extends m reason o is = record {
  counts = λ n. omega (
    arith,
    sum_by-append (λ (d : NodeDissent). hit n d.node.node_id) o.failures
        (record { node = node_ref m; reason = reason } ∷ []),
  );
  answers = λ n. ground arith;
  folded = record { apart = is.apart; weighed = is.weighed };
}

pub add_opinion-Extends :
    (m : WalrusCommitteeMember) (answer : StatusAnswer) (o : Opinions)
    → IsFolded o
    → Extends (m ∷ []) o (add_opinion m answer o)
unfolding add_opinion
add_opinion-Extends m (found status) o is = record {
  counts = λ n. omega (arith, add_node-times n status (node_ref m) o.nodes_by_status);
  answers = λ n. ground arith;
  folded = record {
    apart = add_node-AreApart status (node_ref m) o.nodes_by_status is.apart;
    weighed = rw (is.weighed) (add_weight-weigh status (node_ref m) o.nodes_by_status);
  };
}
add_opinion-Extends m unusable o is = fail-Extends m error o is
add_opinion-Extends m raised o is = fail-Extends m error o is
add_opinion-Extends m was_cancelled o is = fail-Extends m not_checked o is

pub Extends-trans :
    (ms ns : List WalrusCommitteeMember) (o u after : Opinions)
    → Extends ms o u
    → Extends ns u after
    → Extends (ms ++ ns) o after
Extends-trans ms ns o u after first second = record {
  counts = λ n. omega (
    arith,
    first.counts n,
    second.counts n,
    sum_by-append (λ (m : WalrusCommitteeMember). hit n m.node_id) ms ns,
  );
  answers = λ n. ground (
    arith,
    first.answers n,
    second.answers n,
    any-append (λ (m : WalrusCommitteeMember). str_eq m.node_id n) ms ns,
  );
  folded = second.folded;
}

pub foldl-Extends :
    (f : Opinions → WalrusCommitteeMember → Opinions)
    → ((m : WalrusCommitteeMember) (u : Opinions) → IsFolded u → Extends (m ∷ []) u (f u m))
    → (ms : List WalrusCommitteeMember) (o : Opinions) → IsFolded o
    → Extends ms o (foldl f o ms)
foldl-Extends f step [] o is = record {
  counts = λ n. omega arith;
  answers = λ n. ground arith;
  folded = is;
}
foldl-Extends f step (m ∷ ms) o is =
    let one = step m o is in
    Extends-trans (m ∷ []) ms o (f o m) _ one (foldl-Extends f step ms (f o m) one.folded)

pub unchecked-times :
    (n : String) (answered : List String) (ms : List WalrusCommitteeMember)
    → dissent_times n (unchecked answered ms)
      ≡ (if is_answered n answered then 0 else member_times n ms)
unfolding unchecked
unchecked-times n answered [] = ground arith
unchecked-times n answered (m ∷ ms) = elim (Bool-cases (str_eq m.node_id n)) [
  | inr other ↦ elim (Bool-cases (is_answered m.node_id answered)) [
    | inl y ↦ rw y (ground (arith, other, unchecked-times n answered ms))
    | inr not_yet ↦ rw not_yet (ground (arith, other, unchecked-times n answered ms))
  ]
  | inl same ↦
      let e : m.node_id ≡ n = (str_eq_iff m.node_id n).0 same in
      let alike : is_answered m.node_id answered ≡ is_answered n answered =
        ap (λ i. is_answered i answered) e in
      elim (Bool-cases (is_answered m.node_id answered)) [
        | inl y ↦ rw y (ground (arith, alike, y, unchecked-times n answered ms))
        | inr not_yet ↦
            rw not_yet (ground (arith, same, alike, not_yet, unchecked-times n answered ms))
      ]
]

pub any-times :
    (n : String) (ms : List WalrusCommitteeMember)
    → ((any_id n ms ≡ true) × (1 ≤ member_times n ms))
      ⊎ ((any_id n ms ≡ false) × (member_times n ms ≡ 0))
any-times n [] = inr (refl, refl)
any-times n (m ∷ ms) = ground (arith, any-times n ms)
