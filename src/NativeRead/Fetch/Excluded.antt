-- ===== src/NativeRead/Fetch/Excluded.antt =====
-- The nodes that a sliver fan-out leaves out (pytusk/core/native_read/fetch.py).
use mathlib.Core.Option.{some-injective}
use text.Mathlib.Text.{◌==◌ as str_eq}
use text.Mathlib.TextEquality.{eq_iff as str_eq_iff}
use pytusk.Prelude.{
  ℕ, ◌≡◌, sym, ◌∙◌, subst, String, Bool, true, false, ◌&&◌, Option, some, List, [], ◌∷◌, Bool-cases,
  inl, inr, All, if◌then◌else◌,
}
use pytusk.Prelude.Bytes.{Bytes}
use pytusk.Prelude.Int.{pos_part}
use pytusk.Errors.{ok}
use pytusk.Redstuff.Codec.{Axis}
use pytusk.Committee.Members.{WalrusCommitteeMember, WalrusCommittee}
use pytusk.CommitteeFanout.{EventLoop, EventLoopLaws}
use pytusk.NativeRead.Fetch.{
  contains_str, asked, fetch_node_slivers, contains_bytes, fetch_slivers_attributed,
}
use pytusk.Prelude.Orders.{any, All-map}
use pytusk.NativeRead.Fetch.Outcome.{Outcome, gathered, fetch_slivers_attributed-Outcome}

any-asked :
    (exclude_node_ids : List String) (n : String) (g : WalrusCommitteeMember → Bool)
    (ms : List WalrusCommitteeMember)
    → any (λ m. str_eq m.node_id n && g m) (asked exclude_node_ids ms) ≡ true
    → contains_str n exclude_node_ids ≡ false
unfolding asked
any-asked exclude_node_ids n g [] h = cc
any-asked exclude_node_ids n g (m ∷ ms) h =
    by_shards m.shard_indices h (any-asked exclude_node_ids n g ms)
  where
    by_shards :
        (shard_indices : List ℕ)
        → any
            (λ m. str_eq m.node_id n && g m)
            (elim shard_indices [
              | [] ↦ asked exclude_node_ids ms
              | q ∷ qs ↦
                  (if contains_str m.node_id exclude_node_ids
                    then asked exclude_node_ids ms
                    else m ∷ asked exclude_node_ids ms)
            ])
          ≡ true
        → (any (λ m. str_eq m.node_id n && g m) (asked exclude_node_ids ms) ≡ true
            → contains_str n exclude_node_ids ≡ false)
        → contains_str n exclude_node_ids ≡ false
    by_shards [] h below = below h
    by_shards (q ∷ qs) h below = elim (Bool-cases (contains_str m.node_id exclude_node_ids)) [
      | inl y ↦ below (rw y at h)
      | inr out ↦ elim (Bool-cases (str_eq m.node_id n)) [
        | inl same ↦
            let e : m.node_id ≡ n = (str_eq_iff m.node_id n).0 same in
            subst (λ i. contains_str i exclude_node_ids ≡ false) e out
        | inr other ↦ below (rw other at (rw out at h))
      ]
    ]

module _ (read_sliver : WalrusCommitteeMember → Bytes → ℕ → Axis → Option Bytes) (blob_id : Bytes)
    (axis : Axis) (loop : EventLoop WalrusCommitteeMember) where
  -- Under the laws of the event loop: no sliver that a fan-out returns has the ID of an excluded node.
  pub fetch_slivers_attributed_excludes :
      EventLoopLaws loop
      → (committee : WalrusCommittee) (threshold : ℕ) (exclude_node_ids : List String)
        {collected : List (Bytes × String)}
      → fetch_slivers_attributed read_sliver blob_id axis loop committee threshold exclude_node_ids
        ≡ some (ok collected)
      → All (λ (p : Bytes × String). contains_str (p.1) exclude_node_ids ≡ false) collected
  fetch_slivers_attributed_excludes laws committee threshold exclude_node_ids {collected} e =
      let (r, returned, outcome) =
        fetch_slivers_attributed-Outcome read_sliver blob_id axis loop laws committee threshold
          exclude_node_ids in
      of_outcome (
        subst (Outcome read_sliver blob_id axis _ _ threshold)
          (some-injective _ _ (sym returned ∙ e)) outcome)
    where
      of_outcome :
          Outcome read_sliver blob_id axis
            (pos_part committee.n_shards)
            (asked exclude_node_ids committee.members)
            threshold
            (ok collected)
          → All (λ (p : Bytes × String). contains_str (p.1) exclude_node_ids ≡ false) collected
      of_outcome (gathered found reached distinct served) =
          All-map _ (λ (p : Bytes × String). contains_str (p.1) exclude_node_ids ≡ false)
            (λ p h.
              any-asked exclude_node_ids (p.1)
                (λ m.
                  contains_bytes (p.0)
                    (fetch_node_slivers read_sliver blob_id axis (pos_part committee.n_shards) m))
                committee.members h)
            found served
