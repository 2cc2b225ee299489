-- ===== src/BlobStatus/Report/Accounted.antt =====
-- A status report accounts for the whole committee (pytusk/core/ops/blob_status.py).
use pytusk.Prelude.{
  ℕ, ◌+◌, ◌≤◌, ◌≡◌, refl, sym, subst, String, true, false, some, ◌++◌, arith, inl, inr,
}
use pytusk.Prelude.Int.{pos_part}
use pytusk.Prelude.Bytes.{Bytes}
use pytusk.Prelude.Orders.{sum_by-append, sum_by-Perm}
use pytusk.Certification.Quorum.{min_weight_for_quorum, min_weight_for_validity}
use pytusk.Committee.Members.{WalrusCommitteeMember, WalrusCommittee}
use pytusk.CommitteeFanout.{EventLoop, EventLoopLaws, Fanned}
use pytusk.CommitteeFanout.Accounts.{IsAccount, fan_out_accounts}
use pytusk.BlobStatus.{BlobStatus, Resolution, quorum, validity, unresolved, resolve}
use pytusk.BlobStatus.Verdict.{Verdict, by_quorum, by_validity, no_verdict, resolve-Verdict}
use pytusk.BlobStatus.Report.{
  timeout, NodeDissent, BlobStatusReport, StatusAnswer, Opinions, no_opinions, fold_straggler,
  quorum_reached, fold_status, is_answered, unchecked, confirming_nodes, dissenting_nodes,
  report_of, fetch_blob_status,
}
use pytusk.BlobStatus.Report.Folded.{
  hit, times, dissent_times, member_times, weight_of, IsFolded, split-times, confirming-weight,
}
use pytusk.BlobStatus.Report.Counted.{
  Extends, fail-Extends, add_opinion-Extends, Extends-trans, foldl-Extends, unchecked-times,
  any-times,
}

-- The weight that a resolution stands for, of this many shards.
abbrev pub required_for : ℕ → Resolution → ℕ
required_for n quorum = min_weight_for_quorum n
required_for n validity = min_weight_for_validity n
required_for n unresolved = 0

module _ (read_status : WalrusCommitteeMember → Bytes → StatusAnswer) (blob_id : Bytes)
    (loop : EventLoop WalrusCommitteeMember) (committee : WalrusCommittee) where
  abbrev n_shards : ℕ
  n_shards = pos_part committee.n_shards

  module _ (out : Fanned WalrusCommitteeMember Opinions)
      (is : IsAccount loop
        (fold_status read_status blob_id)
        fold_straggler
        (quorum_reached (min_weight_for_quorum n_shards))
        committee.members
        no_opinions
        out) where
    acc-Extends : Extends (out.completed ++ out.cancelled) no_opinions out.acc
    acc-Extends =
        let nothing : IsFolded no_opinions = record { apart = tt; weighed = refl } in
        let first =
          foldl-Extends (fold_status read_status blob_id)
            (λ m u. add_opinion-Extends m (read_status m blob_id) u) out.completed no_opinions
            nothing in
        let second =
          foldl-Extends fold_straggler (λ m u. fail-Extends m timeout u) out.cancelled _
            first.folded in
        subst (Extends (out.completed ++ out.cancelled) no_opinions) (sym is.folded)
          (Extends-trans out.completed out.cancelled no_opinions _ _ first second)

    counted_once :
        (n : String)
        → member_times n committee.members ≤ 1
        → times n (report_of committee blob_id out.acc).confirming
            + dissent_times n (report_of committee blob_id out.acc).dissenting
          ≡ member_times n committee.members
    unfolding report_of
    counted_once n le =
        let acc = out.acc in
        let verdict =
          (resolve acc.weight_by_status (min_weight_for_quorum n_shards)
            (min_weight_for_validity n_shards)).0 in
        let whole = sum_by-Perm (λ (m : WalrusCommitteeMember). hit n m.node_id) _ _ is.once in
        let outer =
          sum_by-append (λ (m : WalrusCommitteeMember). hit n m.node_id) out.completed
            (out.cancelled ++ out.unreported) in
        let inner =
          sum_by-append (λ (m : WalrusCommitteeMember). hit n m.node_id) out.cancelled
            out.unreported in
        let both =
          sum_by-append (λ (m : WalrusCommitteeMember). hit n m.node_id) out.completed
            out.cancelled in
        let missing = unchecked acc.answered committee.members in
        let listed =
          sum_by-append (λ (d : NodeDissent). hit n d.node.node_id) (acc.failures ++ missing)
            (dissenting_nodes verdict acc.nodes_by_status) in
        let failed =
          sum_by-append (λ (d : NodeDissent). hit n d.node.node_id) acc.failures missing in
        let shared = split-times n verdict acc.nodes_by_status acc-Extends.folded.apart in
        let rest = unchecked-times n acc.answered committee.members in
        elim (any-times n (out.completed ++ out.cancelled)) [
          | inl (y, some_time) ↦
              let answered : is_answered n acc.answered ≡ true =
                ground (arith, acc-Extends.answers n, y) in
              let none_missing : dissent_times n missing ≡ 0 = rw answered at rest in
              omega (
                arith,
                whole,
                outer,
                inner,
                both,
                listed,
                failed,
                shared,
                none_missing,
                acc-Extends.counts n,
              )
          | inr (y, never) ↦
              let unheard : is_answered n acc.answered ≡ false =
                ground (arith, acc-Extends.answers n, y) in
              let all_missing : dissent_times n missing ≡ member_times n committee.members =
                rw unheard at rest in
              omega (arith, never, listed, failed, shared, all_missing, acc-Extends.counts n)
        ]

    reached :
        (v : BlobStatus × Resolution)
        → Verdict out.acc.weight_by_status
            (min_weight_for_quorum n_shards)
            (min_weight_for_validity n_shards)
            v
        → required_for n_shards (v.1) ≤ weight_of (confirming_nodes (v.0) out.acc.nodes_by_status)
    reached _ (by_quorum i status weight there enough) =
        let e =
          confirming-weight status i weight out.acc.nodes_by_status acc-Extends.folded.apart
            (rw (acc-Extends.folded.weighed) at there) in
        omega (arith, e)
    reached _ (by_validity i status weight there enough below strongest) =
        let e =
          confirming-weight status i weight out.acc.nodes_by_status acc-Extends.folded.apart
            (rw (acc-Extends.folded.weighed) at there) in
        omega (arith, e)
    reached _ (no_verdict below_quorum below_validity) = omega arith

    report_of-reached :
        required_for n_shards (report_of committee blob_id out.acc).resolution
        ≤ weight_of (report_of committee blob_id out.acc).confirming
    unfolding report_of
    report_of-reached = reached _ (
        resolve-Verdict out.acc.weight_by_status (min_weight_for_quorum n_shards)
          (min_weight_for_validity n_shards))

  module _ (laws : EventLoopLaws loop) where
    run :
        (out : Fanned WalrusCommitteeMember Opinions) × (fetch_blob_status read_status blob_id loop
            committee
          ≡ some (report_of committee blob_id out.acc))
        × IsAccount loop
            (fold_status read_status blob_id)
            fold_straggler
            (quorum_reached (min_weight_for_quorum n_shards))
            committee.members
            no_opinions
            out
    unfolding fetch_blob_status
    run =
        let (out, e, is) =
          fan_out_accounts loop (fold_status read_status blob_id) fold_straggler
            (quorum_reached (min_weight_for_quorum n_shards)) laws committee.members no_opinions in
        (out, rw (e, fetch_blob_status) refl, is)

    -- Under the laws of the event loop, whatever the nodes answer and whenever the deadline fires:
    -- fetch_blob_status ends with a report, in which a node ID occurs as often as in the committee, if it
    -- occurs there once at most: each member is confirming or dissenting, never both, and nobody else is.
    pub fetch_blob_status-once :
        (n : String)
        → member_times n committee.members ≤ 1
        → (report : BlobStatusReport) × (fetch_blob_status read_status blob_id loop committee
            ≡ some report)
          × (times n report.confirming + dissent_times n report.dissenting
              ≡ member_times n committee.members)
    fetch_blob_status-once n le =
        let (out, e, is) = run in (report_of committee blob_id out.acc, e, counted_once out is n le)

    -- Under the laws of the event loop: the confirming nodes of the report have together the weight that
    -- its resolution names, that of a quorum or that of the validity threshold.
    pub fetch_blob_status-reached :
        (report : BlobStatusReport) × (fetch_blob_status read_status blob_id loop committee
          ≡ some report)
        × (required_for n_shards report.resolution ≤ weight_of report.confirming)
    fetch_blob_status-reached =
        let (out, e, is) = run in (report_of committee blob_id out.acc, e, report_of-reached out is)
