-- ===== src/NativeRead/Fetch/Outcome.antt =====
-- What a sliver fan-out returns (pytusk/core/native_read/fetch.py).
use mathlib.Core.List.{foldl, foldl-append, append-nil}
use text.Mathlib.Text.{◌==◌ as str_eq}
use text.Mathlib.TextEquality.{eq_iff as str_eq_iff}
use pytusk.Prelude.{
  ℕ, ◌≤◌, ◌<◌, ◌≡◌, refl, sym, ap, ◌∙◌, String, Bool, true, false, ◌||◌, ◌&&◌, Option, some, List,
  [], ◌∷◌, ◌++◌, map, length, ltb, arith, Bool-cases, inl, inr, All,
}
use pytusk.Prelude.Int.{pos_part}
use pytusk.Prelude.Bytes.{Bytes}
use pytusk.Errors.{Result, ok, err, cancelled, sliver_fetch}
use pytusk.Redstuff.Codec.{Axis}
use pytusk.Committee.Members.{WalrusCommitteeMember, WalrusCommittee}
use pytusk.CommitteeFanout.{EventLoop, EventLoopLaws, Fanned}
use pytusk.CommitteeFanout.Accounts.{IsAccount, fan_out_accounts}
use pytusk.NativeRead.Fetch.{
  Gathered, contains_bytes, sliver_of, answered, asked, fetch_node_slivers, fold_sliver, fold_node,
  fold_cancelled, enough, nothing, settled, fetch_slivers_attributed,
}
use pytusk.NativeRead.Fetch.Fold.{IsDistinct, slivers_in, IsGathered, Grown, fold_slivers-Grown}
use pytusk.Prelude.Orders.{any, any-Perm, any-append}

module _ (read_sliver : WalrusCommitteeMember → Bytes → ℕ → Axis → Option Bytes) (blob_id : Bytes)
    (axis : Axis) (n_shards : ℕ) where
  abbrev answers : WalrusCommitteeMember → List Bytes
  answers m = fetch_node_slivers read_sliver blob_id axis n_shards m

  -- Whether one of these members supplies the sliver.
  abbrev pub supplied : Bytes → List WalrusCommitteeMember → Bool
  supplied s ms = any (λ m. contains_bytes s (answers m)) ms

  -- Whether one of these members has the node ID and supplies the sliver.
  abbrev pub supplied_by : String → Bytes → List WalrusCommitteeMember → Bool
  supplied_by n s ms = any (λ m. str_eq m.node_id n && contains_bytes s (answers m)) ms

  -- What folding the answers of these members makes of `g`.
  record Served (ms : List WalrusCommitteeMember) (g after : Gathered) : Type 1 where
    gathered : IsGathered after
    has :
        (r : Bytes)
        → contains_bytes r (slivers_in after) ≡ (contains_bytes r (slivers_in g) || supplied r ms)
    served :
        (P : Bytes × String → Type 0)
        → ((n : String) (s : Bytes) → supplied_by n s ms ≡ true → P (s, n))
        → All P g.collected
        → All P after.collected
    longer : length g.collected ≤ length after.collected

  fold_node-Grown :
      (g : Gathered) (m : WalrusCommitteeMember)
      → IsGathered g
      → Grown m.node_id (answers m) g (fold_node read_sliver blob_id axis n_shards g m)
  unfolding fold_node
  fold_node-Grown g m is = grown (answers m)
    where
      grown :
          (slivers : List Bytes)
          → Grown m.node_id slivers g (elim slivers [
            | [] ↦ g
            | s ∷ ss ↦ foldl (fold_sliver m.node_id) (answered g) (s ∷ ss)
          ])
      grown [] = fold_slivers-Grown m.node_id [] g is
      grown (s ∷ ss) =
          let more =
            fold_slivers-Grown m.node_id (s ∷ ss) (answered g)
              (record { seen_iff = is.seen_iff; distinct = is.distinct }) in
          record {
            gathered = more.gathered;
            has = more.has;
            served = more.served;
            longer = more.longer;
          }

  abbrev folded : Gathered → List WalrusCommitteeMember → Gathered
  folded g ms = foldl (fold_node read_sliver blob_id axis n_shards) g ms

  fold_nodes-Served :
      (ms : List WalrusCommitteeMember) (g : Gathered) → IsGathered g → Served ms g (folded g ms)
  fold_nodes-Served [] g is = record {
    gathered = is;
    has = λ r. ground arith;
    served = λ P h all. all;
    longer = omega arith;
  }
  fold_nodes-Served (m ∷ ms) g is =
      let one = fold_node-Grown g m is in
      let rest =
        fold_nodes-Served ms (fold_node read_sliver blob_id axis n_shards g m) one.gathered in
      record {
        gathered = rest.gathered;
        has = λ r. ground (arith, rest.has r, one.has r);
        served = λ P h all.
            rest.served P (λ n r c. h n r (ground arith))
              (one.served P
                (λ r c. h m.node_id r (ground (arith, (str_eq_iff m.node_id m.node_id).1 refl)))
                all);
        longer = omega (arith, rest.longer, one.longer);
      }

  -- How a fan-out over these members ends: with enough slivers, distinct and each with the ID of a node
  -- that supplied it; or with too few, though they are all that these members supply; or the caller's
  -- own task is cancelled.
  pub data Outcome (members : List WalrusCommitteeMember) (threshold : ℕ)
      : Result (List (Bytes × String)) → Type 0 where
    gathered :
        (collected : List (Bytes × String))
        → threshold ≤ length collected
        → IsDistinct (map sliver_of collected)
        → All (λ (p : Bytes × String). supplied_by (p.1) (p.0) members ≡ true) collected
        → Outcome members threshold (ok collected)
    too_few :
        (found : List (Bytes × String))
        → length found < threshold
        → IsDistinct (map sliver_of found)
        → ((s : Bytes) → contains_bytes s (map sliver_of found) ≡ supplied s members)
        → Outcome members threshold (err sliver_fetch)
    caller_cancelled : Outcome members threshold (err cancelled)

  nothing-IsGathered : IsGathered nothing
  nothing-IsGathered = record { seen_iff = λ s. refl; distinct = tt }

  foldl-cancelled : (g : Gathered) (ms : List WalrusCommitteeMember) → foldl fold_cancelled g ms ≡ g
  foldl-cancelled g [] = refl
  foldl-cancelled g (m ∷ ms) = foldl-cancelled g ms

  module _ (loop : EventLoop WalrusCommitteeMember) (members : List WalrusCommitteeMember)
      (threshold : ℕ) (out : Fanned WalrusCommitteeMember Gathered)
      (is : IsAccount loop
        (fold_node read_sliver blob_id axis n_shards)
        fold_cancelled
        (enough threshold)
        members
        nothing
        out) where
    acc-folded : out.acc ≡ folded nothing out.completed
    acc-folded = is.folded ∙ foldl-cancelled (folded nothing out.completed) out.cancelled

    acc-Served : Served out.completed nothing out.acc
    acc-Served = rw acc-folded (fold_nodes-Served out.completed nothing nothing-IsGathered)

    any-completed :
        (f : WalrusCommitteeMember → Bool) → any f out.completed ≡ true → any f members ≡ true
    any-completed f h = ground (
      arith,
      any-append f out.completed (out.cancelled ++ out.unreported),
      any-Perm f (out.completed ++ (out.cancelled ++ out.unreported)) members is.once,
    )

    -- Below the threshold nothing was cancelled.
    none_cancelled : length out.acc.collected < threshold → out.cancelled ≡ []
    none_cancelled few = elim is.cancelled_if [
      | inl none_of_them ↦ none_of_them
      | inr (before, after, split, met) ↦
          let early = folded nothing before in
          let stopped : enough threshold early ≡ true = met in
          let grown =
            fold_nodes-Served after early
              ((fold_nodes-Served before nothing nothing-IsGathered).gathered) in
          let same : out.acc ≡ folded early after =
            acc-folded
            ∙ ap (folded nothing) split
            ∙ foldl-append (fold_node read_sliver blob_id axis n_shards) nothing before after in
          let longer : length early.collected ≤ length out.acc.collected = rw same grown.longer in
          absurd (ground arith)
    ]

    none_swept : out.interrupted ≡ false → out.unreported ≡ []
    none_swept e = elim is.unreported_if [ inl stopped ↦ cc | inr none_of_them ↦ none_of_them ]

    all_found :
        out.interrupted ≡ false
        → length out.acc.collected < threshold
        → (s : Bytes) → contains_bytes s (slivers_in out.acc) ≡ supplied s members
    all_found e few s =
        let f : WalrusCommitteeMember → Bool = λ m. contains_bytes s (answers m) in
        let leftover : out.cancelled ++ out.unreported ≡ [] =
          rw (none_cancelled few) (none_swept e) in
        let whole : any f (out.completed ++ []) ≡ any f members =
          rw (← leftover) (any-Perm f _ members is.once) in
        acc-Served.has s ∙ ap (any f) (sym (append-nil out.completed)) ∙ whole

    counted :
        (interrupted : Bool)
        → out.interrupted ≡ interrupted
        → Outcome members threshold (settled threshold out)
    unfolding settled
    counted true e = rw e caller_cancelled
    counted false e = elim (Bool-cases (ltb (length out.acc.collected) threshold)) [
      | inl few ↦
          rw (e, few)
            (too_few out.acc.collected (ground arith) acc-Served.gathered.distinct
              (all_found e (ground arith)))
      | inr no_fewer ↦
          rw (e, no_fewer)
            (gathered out.acc.collected (ground arith) acc-Served.gathered.distinct (
              acc-Served.served (λ p. supplied_by (p.1) (p.0) members ≡ true)
                (λ n s h. any-completed _ h) tt))
    ]

module _ (read_sliver : WalrusCommitteeMember → Bytes → ℕ → Axis → Option Bytes) (blob_id : Bytes)
    (axis : Axis) (loop : EventLoop WalrusCommitteeMember) where
  -- Under the laws of the event loop, whatever its waits return: the fan-out ends, with slivers that
  -- are distinct, no fewer than the threshold, and each with the ID of an asked node that supplied
  -- it; or with sliver_fetch, and then the distinct slivers that the asked nodes supply are
  -- fewer than the threshold; or with the cancellation of the caller.
  pub fetch_slivers_attributed-Outcome :
      EventLoopLaws loop
      → (committee : WalrusCommittee) (threshold : ℕ) (exclude_node_ids : List String)
      → (r : Result (List (Bytes × String))) × (fetch_slivers_attributed read_sliver blob_id axis
            loop committee threshold exclude_node_ids
          ≡ some r)
        × Outcome read_sliver blob_id axis
            (pos_part committee.n_shards)
            (asked exclude_node_ids committee.members)
            threshold
            r
  unfolding fetch_slivers_attributed
  fetch_slivers_attributed-Outcome laws committee threshold exclude_node_ids =
      let n_shards = pos_part committee.n_shards in
      let members = asked exclude_node_ids committee.members in
      let (out, e, is) =
        fan_out_accounts loop (fold_node read_sliver blob_id axis n_shards) fold_cancelled
          (enough threshold) laws members nothing in
      (
        settled threshold out,
        rw (e, fetch_slivers_attributed) refl,
        counted read_sliver blob_id axis n_shards loop members threshold out is out.interrupted
            refl,
      )
