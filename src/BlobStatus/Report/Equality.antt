-- ===== src/BlobStatus/Report/Equality.antt =====
-- status_eq decides the equality of statuses (pytusk/core/types/blob_status.py).
use text.Mathlib.TextEquality.{eq_iff as str_eq_iff}
use pytusk.Prelude.{
  ℕ, ◌≡◌, refl, ap, ap₂, String, Bool, true, false, ◌&&◌, Option, none, some, arith, ◌==◌, ==_iff,
}
use pytusk.BlobStatus.{
  EventRef, DeletableCounts, BlobStatus, nonexistent_status, invalid_status, permanent_status,
  deletable_status, unresolved_status,
}
use pytusk.BlobStatus.Report.{event_eq, counts_eq, epoch_eq, flag_eq, status_eq}

both : (a b : Bool) → (a && b) ≡ true → (a ≡ true) × (b ≡ true)
both true b e = (refl, e)
both false b e = cc

event_of : String → ℕ → EventRef
event_of tx_digest event_seq = record { tx_digest = tx_digest; event_seq = event_seq }

counts_of : ℕ → ℕ → DeletableCounts
counts_of total certified = record { total = total; certified = certified }

event_eq_same : (a b : EventRef) → event_eq a b ≡ true → a ≡ b
unfolding event_of
event_eq_same a b e =
    let (s, n) = both _ _ e in
    ap₂ event_of ((str_eq_iff a.tx_digest b.tx_digest).0 s) ((==_iff a.event_seq b.event_seq).0 n)

counts_eq_same : (a b : DeletableCounts) → counts_eq a b ≡ true → a ≡ b
unfolding counts_of
counts_eq_same a b e =
    let (t, c) = both _ _ e in
    ap₂ counts_of ((==_iff a.total b.total).0 t) ((==_iff a.certified b.certified).0 c)

epoch_eq_same : (a b : Option ℕ) → epoch_eq a b ≡ true → a ≡ b
epoch_eq_same none none e = refl
epoch_eq_same none (some n) e = cc
epoch_eq_same (some m) none e = cc
epoch_eq_same (some m) (some n) e = ap some ((==_iff m n).0 e)

flag_eq_same : (a b : Bool) → flag_eq a b ≡ true → a ≡ b
flag_eq_same a b e = ground arith

pub status_eq_same : (s t : BlobStatus) → status_eq s t ≡ true → s ≡ t
unfolding status_eq
status_eq_same nonexistent_status nonexistent_status h = refl
status_eq_same nonexistent_status (invalid_status a') h = cc
status_eq_same nonexistent_status (permanent_status e' c' v' d' i') h = cc
status_eq_same nonexistent_status (deletable_status d' i') h = cc
status_eq_same nonexistent_status unresolved_status h = cc
status_eq_same (invalid_status a) nonexistent_status h = cc
status_eq_same (invalid_status a) (invalid_status a') h = ap invalid_status (event_eq_same a a' h)
status_eq_same (invalid_status a) (permanent_status e' c' v' d' i') h = cc
status_eq_same (invalid_status a) (deletable_status d' i') h = cc
status_eq_same (invalid_status a) unresolved_status h = cc
status_eq_same (permanent_status e c v d i) nonexistent_status h = cc
status_eq_same (permanent_status e c v d i) (invalid_status a') h = cc
status_eq_same (permanent_status e c v d i) (permanent_status e' c' v' d' i') h =
    let (p, q) = both (e == e' && flag_eq c c') _ h in
    let (epochs, flags) = both (e == e') _ p in
    let (events, r) = both (event_eq v v') _ q in
    let (counts, initials) = both (counts_eq d d') _ r in
    cc (
      (==_iff e e').0 epochs,
      flag_eq_same c c' flags,
      event_eq_same v v' events,
      counts_eq_same d d' counts,
      epoch_eq_same i i' initials,
    )
status_eq_same (permanent_status e c v d i) (deletable_status d' i') h = cc
status_eq_same (permanent_status e c v d i) unresolved_status h = cc
status_eq_same (deletable_status d i) nonexistent_status h = cc
status_eq_same (deletable_status d i) (invalid_status a') h = cc
status_eq_same (deletable_status d i) (permanent_status e' c' v' d' i') h = cc
status_eq_same (deletable_status d i) (deletable_status d' i') h =
    let (p, q) = both _ _ h in ap₂ deletable_status (counts_eq_same d d' p) (epoch_eq_same i i' q)
status_eq_same (deletable_status d i) unresolved_status h = cc
status_eq_same unresolved_status nonexistent_status h = cc
status_eq_same unresolved_status (invalid_status a') h = cc
status_eq_same unresolved_status (permanent_status e' c' v' d' i') h = cc
status_eq_same unresolved_status (deletable_status d' i') h = cc
status_eq_same unresolved_status unresolved_status h = refl

event_eq_refl : (a : EventRef) → event_eq a a ≡ true
event_eq_refl a =
    ground
      (arith, (str_eq_iff a.tx_digest a.tx_digest).1 refl, (==_iff a.event_seq a.event_seq).1 refl)

counts_eq_refl : (a : DeletableCounts) → counts_eq a a ≡ true
counts_eq_refl a =
    ground (arith, (==_iff a.total a.total).1 refl, (==_iff a.certified a.certified).1 refl)

epoch_eq_refl : (a : Option ℕ) → epoch_eq a a ≡ true
epoch_eq_refl none = refl
epoch_eq_refl (some n) = (==_iff n n).1 refl

flag_eq_refl : (a : Bool) → flag_eq a a ≡ true
flag_eq_refl true = refl
flag_eq_refl false = refl

pub status_eq_refl : (s : BlobStatus) → status_eq s s ≡ true
unfolding status_eq
status_eq_refl nonexistent_status = refl
status_eq_refl (invalid_status a) = event_eq_refl a
status_eq_refl (permanent_status e c v d i) =
    ground (
      arith,
      (==_iff e e).1 refl,
      flag_eq_refl c,
      event_eq_refl v,
      counts_eq_refl d,
      epoch_eq_refl i,
    )
status_eq_refl (deletable_status d i) = ground (arith, counts_eq_refl d, epoch_eq_refl i)
status_eq_refl unresolved_status = refl
