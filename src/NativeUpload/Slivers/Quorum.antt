-- ===== src/NativeUpload/Slivers/Quorum.antt =====
-- What upload_slivers returns (pytusk/core/native_upload/fanout.py).
use mathlib.Core.List.{foldl, append-nil, Perm}
use pytusk.Prelude.{
  ℕ, ◌≤◌, ◌<◌, ◌≡◌, refl, ap, ◌∙◌, subst, String, Bool, true, false, some, List, [], ◌∷◌, ◌++◌, map,
  ltb, arith, All, Bool-cases, inl, inr,
}
use pytusk.Prelude.Int.{pos_part}
use pytusk.Prelude.Orders.{any, any-Perm, any-append, sum_by, sum_by-Perm, sum_by-append}
use pytusk.Errors.{Result, ok, err, cancelled, sliver_upload, ◌>>◌, Result-cases}
use pytusk.Redstuff.Codec.{EncodedBlob}
use pytusk.Certification.Quorum.{is_quorum, min_weight_for_quorum}
use pytusk.Certification.Quorum.Thresholds.{thresholds_exact}
use pytusk.Committee.Members.{WalrusCommitteeMember, WalrusCommittee}
use pytusk.CommitteeFanout.{EventLoop, EventLoopLaws, Fanned}
use pytusk.CommitteeFanout.Accounts.{IsAccount, fan_out_accounts}
use pytusk.NativeUpload.Node.{SliverPair, PutSpec, ExecuteClient, NodeUploadOutcome}
use pytusk.NativeUpload.Node.Stored.{}
use pytusk.NativeUpload.Slivers.{
  FanoutReport, Uploads, no_uploads, is_enough, reported, fold_completed, outcome_cancelled,
  fan_out_slivers, first_sliver, targets, shards_by_node, upload_slivers,
}
use pytusk.NativeUpload.Slivers.Targets.{id_of, is_member, AreTargets, targets-AreTargets}
use pytusk.NativeUpload.Slivers.Outcomes.{
  credit, straggler, stray, with_outcomes, straggler-credit, sum_by-map, IsHonest, outcome_made,
  fold_completed-outcomes, outcome_cancelled-straggler, outcome_made-All,
}

module _ (client : ExecuteClient) (max_retries : ℕ) (encoded : EncodedBlob SliverPair)
    (puts : WalrusCommitteeMember → EventLoop PutSpec) (committee : WalrusCommittee) where
  abbrev made : WalrusCommitteeMember → NodeUploadOutcome
  made m = outcome_made client max_retries encoded puts committee m

  -- How an upload to these members ends: with a report, of just one outcome for each of them, whose
  -- weight is that of the outcomes that succeeded, and a quorum; or with sliver_upload, though no task
  -- was given up, when the outcomes that succeed weigh too little; or the caller is cancelled. An
  -- outcome succeeds only for a node that has stored everything.
  pub data Ended (members : List WalrusCommitteeMember) : Result FanoutReport → Type 0 where
    quorum :
        (completed stragglers : List WalrusCommitteeMember) (report : FanoutReport)
        → Perm (completed ++ stragglers) members
        → All (λ m. IsHonest client max_retries encoded puts committee m (made m)) completed
        → report.outcomes ≡ map made completed ++ map (straggler committee) stragglers
        → report.weight_succeeded ≡ sum_by credit report.outcomes
        → is_quorum report.weight_succeeded (pos_part committee.n_shards) ≡ true
        → Ended members (ok report)
    too_few :
        All (λ m. IsHonest client max_retries encoded puts committee m (made m)) members
        → sum_by (λ m. credit (made m)) members
          < min_weight_for_quorum (pos_part committee.n_shards)
        → Ended members (err sliver_upload)
    caller_cancelled : Ended members (err cancelled)

  abbrev required : ℕ
  required = min_weight_for_quorum (pos_part committee.n_shards)

  module _ (loop : EventLoop WalrusCommitteeMember) (members : List WalrusCommitteeMember)
      (laws : (m : WalrusCommitteeMember) → EventLoopLaws (puts m))
      (known : any (stray committee) members ≡ false)
      (out : Fanned WalrusCommitteeMember (Result Uploads))
      (is : IsAccount loop
        (fold_completed client max_retries encoded puts committee)
        (outcome_cancelled committee)
        (is_enough required)
        members
        (ok no_uploads)
        out) where
    abbrev earned : List WalrusCommitteeMember → ℕ
    earned ms = sum_by (λ m. credit (made m)) ms

    parts :
        (any (stray committee) out.completed ≡ false)
        × (any (stray committee) out.cancelled ≡ false)
    parts =
        let whole = any-Perm (stray committee) _ _ is.once in
        let outer = any-append (stray committee) out.completed (out.cancelled ++ out.unreported) in
        let inner = any-append (stray committee) out.cancelled out.unreported in
        (ground (arith, whole, outer, inner, known), ground (arith, whole, outer, inner, known))

    abbrev final : Uploads
    final =
        with_outcomes (map (straggler committee) out.cancelled)
          (with_outcomes (map made out.completed) no_uploads)

    acc-final : out.acc ≡ ok final
    acc-final =
        is.folded
        ∙ ap (λ acc. foldl (outcome_cancelled committee) acc out.cancelled)
            (fold_completed-outcomes client max_retries encoded puts committee laws out.completed
              no_uploads parts.0)
        ∙ outcome_cancelled-straggler client max_retries encoded puts committee out.cancelled
            (with_outcomes (map made out.completed) no_uploads) parts.1

    final-weight : final.weight_succeeded ≡ earned out.completed
    final-weight =
        omega (arith, straggler-credit committee out.cancelled, sum_by-map made out.completed)

    -- Below the quorum nothing was cancelled.
    none_cancelled : earned out.completed < required → out.cancelled ≡ []
    none_cancelled few = elim is.cancelled_if [
      | inl none_of_them ↦ none_of_them
      | inr (before, after, split, met) ↦
          let both = any-append (stray committee) before after in
          let all = ap (any (stray committee)) split in
          let early : any (stray committee) before ≡ false = ground (arith, both, all, parts.0) in
          let reached : is_enough required (ok (with_outcomes (map made before) no_uploads))
              ≡ true =
            subst (λ acc. is_enough required acc ≡ true)
              (fold_completed-outcomes client max_retries encoded puts committee laws before
                no_uploads early)
              met in
          let whole = ap earned split ∙ sum_by-append (λ m. credit (made m)) before after in
          absurd (ground (arith, whole, sum_by-map made before))
    ]

    final-sum : final.weight_succeeded ≡ sum_by credit final.outcomes
    final-sum = omega (
      arith,
      sum_by-append credit (map made out.completed) (map (straggler committee) out.cancelled),
    )

    counted :
        (interrupted : Bool)
        → out.interrupted ≡ interrupted
        → Ended members (reported committee out)
    unfolding reported
    counted true e = rw e caller_cancelled
    counted false e = elim (Bool-cases (ltb final.weight_succeeded required)) [
      | inl few ↦
          let nothing_left : out.cancelled ++ out.unreported ≡ [] =
            rw (none_cancelled (ground (arith, final-weight))) none_swept in
          let whole : earned (out.completed ++ []) ≡ earned members =
            rw (← nothing_left) (sum_by-Perm (λ m. credit (made m)) _ _ is.once) in
          let same = ap earned (append-nil out.completed) in
          rw (e, acc-final, few)
            (too_few (outcome_made-All client max_retries encoded puts committee laws members known)
              (ground (arith, final-weight, whole, same)))
      | inr no_fewer ↦
          let enough : required ≤ final.weight_succeeded = ground arith in
          rw (e, acc-final, no_fewer)
            (quorum out.completed out.cancelled _ once
              (outcome_made-All client max_retries encoded puts committee laws out.completed
                parts.0)
              refl final-sum
              ((thresholds_exact final.weight_succeeded (pos_part committee.n_shards)).0.1 enough))
    ]
      where
        none_swept : out.unreported ≡ []
        none_swept = elim is.unreported_if [ inl stopped ↦ cc | inr none_of_them ↦ none_of_them ]

        once : Perm (out.completed ++ out.cancelled) members
        once =
            subst (λ rest. Perm (out.completed ++ rest) members)
              (ap (◌++◌ out.cancelled) none_swept ∙ append-nil out.cancelled) is.once

  no_stray :
      (members : List WalrusCommitteeMember)
      → All (λ i. is_member committee.members i ≡ true) (map id_of members)
      → any (stray committee) members ≡ false
  no_stray [] all = refl
  no_stray (m ∷ ms) (known, all) = ground (arith, known, no_stray ms all)

  -- The same for members that are in the committee.
  fan_out_slivers-Ended :
      (loop : EventLoop WalrusCommitteeMember) (members : List WalrusCommitteeMember)
      → EventLoopLaws loop
      → ((m : WalrusCommitteeMember) → EventLoopLaws (puts m))
      → All (λ i. is_member committee.members i ≡ true) (map id_of members)
      → (r : Result FanoutReport) × (fan_out_slivers client max_retries encoded puts committee loop
            (ok members)
          ≡ some r)
        × Ended members r
  unfolding fan_out_slivers
  fan_out_slivers-Ended loop members loop_laws laws all =
      let (out, e, is) =
        fan_out_accounts loop (fold_completed client max_retries encoded puts committee)
          (outcome_cancelled committee) (is_enough required) loop_laws members (ok no_uploads) in
      (
        reported committee out,
        rw (e, fan_out_slivers) refl,
        counted loop members laws (no_stray members all) out is out.interrupted refl,
      )

  -- Under the laws of the event loop, whatever its waits return, if the encoded blob has slivers and the
  -- committee a member for each shard: upload_slivers ends. It has a task for the node of every shard,
  -- and no two for one node. It reports just one outcome for each task, and the weight of those that
  -- succeeded, which is a quorum; or it raises sliver_upload, and then no upload was given up and the
  -- outcomes that succeed weigh less than a quorum; or the caller is cancelled. An outcome that has
  -- succeeded is that of a node which has stored the metadata and all its slivers.
  pub upload_slivers-Ended :
      (loop : EventLoop WalrusCommitteeMember) {grouped : List (String × List ℕ)}
      → EventLoopLaws loop
      → ((m : WalrusCommitteeMember) → EventLoopLaws (puts m))
      → first_sliver encoded.slivers ≡ ok tt
      → shards_by_node committee ≡ ok grouped
      → (members : List WalrusCommitteeMember) × AreTargets committee members
        × ((r : Result FanoutReport) × (upload_slivers client max_retries encoded puts committee
                loop
              ≡ some r)
            × Ended members r)
  unfolding upload_slivers
  upload_slivers-Ended loop loop_laws laws nonempty grouped =
      let (members, found, are) = targets-AreTargets committee grouped in
      let (r, e, ended) = fan_out_slivers-Ended loop members loop_laws laws are.known in
      (members, are, (r, rw (nonempty, found) e, ended))

  -- Whatever the committee: the upload ends.
  pub upload_slivers-ends :
      (loop : EventLoop WalrusCommitteeMember)
      → EventLoopLaws loop
      → (r : Result FanoutReport) × (upload_slivers client max_retries encoded puts committee loop
          ≡ some r)
  unfolding upload_slivers fan_out_slivers
  upload_slivers-ends loop loop_laws =
      elim (Result-cases (first_sliver encoded.slivers >> targets committee)) [
        | inl (e, y) ↦ (err e, rw (y, fan_out_slivers) refl)
        | inr (members, y) ↦
            let (out, e, is) =
              fan_out_accounts loop (fold_completed client max_retries encoded puts committee)
                (outcome_cancelled committee) (is_enough required) loop_laws members
                (ok no_uploads) in
            (reported committee out, rw (y, e, fan_out_slivers) refl)
      ]
