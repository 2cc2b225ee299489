-- ===== src/NativeUpload/Node/Stored.antt =====
-- When a node's upload succeeds, and what else it ends with (pytusk/core/native_upload/fanout.py).
use native.Mathlib.Nat.{le_refl}
use pytusk.Prelude.{
  ℕ, zero, suc, ◌+◌, ◌≤◌, ◌≡◌, refl, sym, ◌∙◌, String, Bool, true, false, ◌||◌, Option, none, some,
  List, [], ◌∷◌, length, arith, All, Option-cases, inl, inr,
}
use pytusk.Prelude.Orders.{any, any-Perm, any-append, any-All, All-map}
use pytusk.Errors.{Error, Result, ok, err, cancelled}
use pytusk.Redstuff.Codec.{EncodedBlob}
use pytusk.Committee.Members.{WalrusCommitteeMember, WalrusCommittee, position_of}
use pytusk.CommitteeFanout.{EventLoop, EventLoopLaws}
use pytusk.CommitteeFanout.Waits.{rest-shorter}
use pytusk.NativeUpload.Retry.{Put, done, failed, thrown}
use pytusk.NativeUpload.Node.{
  SliverPair, PutSpec, ExecuteClient, Reason, metadata_reason, put_reason, exception_reason,
  error_reason, NodeTask, returned, raised, PutsEnd, all_done, interrupted, first_failed, put_specs,
  outcome_with, node_outcome, or_raised, after_puts, metadata_put, sliver_put, failed_reason,
  puts_loop, upload_slivers_of, upload_node,
}

abbrev pub is_failure : Put → Bool
is_failure done = false
is_failure (failed reason) = true
is_failure (thrown why) = true

no_failure : (put : Put) → is_failure put ≡ false → put ≡ done
no_failure done e = refl
no_failure (failed reason) e = cc
no_failure (thrown why) e = cc

module _ (client : ExecuteClient) (max_retries : ℕ) (encoded : EncodedBlob SliverPair) where
  abbrev pub fails : WalrusCommitteeMember → PutSpec → Bool
  fails member spec = is_failure (sliver_put client max_retries encoded member spec)

  -- The node has stored the metadata and both slivers of each of its shards.
  pub record IsStored (member : WalrusCommitteeMember) : Type 0 where
    pub metadata : metadata_put client max_retries encoded member ≡ done
    pub specs : List PutSpec
    pub listed : put_specs encoded.slivers member.shard_indices ≡ ok specs
    pub puts : All (λ spec. sliver_put client max_retries encoded member spec ≡ done) specs

  failed_reason-fails :
      (member : WalrusCommitteeMember) (specs : List PutSpec) (r : Option Reason)
      → failed_reason client max_retries encoded member specs ≡ r
      → any (fails member) specs ≡ elim r [ none ↦ false | some reason ↦ true ]
  unfolding failed_reason
  failed_reason-fails member [] r e = rw (← e) refl
  failed_reason-fails member (spec ∷ specs) r e =
      by_put (sliver_put client max_retries encoded member spec) e
        (failed_reason-fails member specs)
    where
      by_put :
          (put : Put)
          → elim put [
            | done ↦ failed_reason client max_retries encoded member specs
            | failed reason ↦ some (put_reason reason)
            | thrown why ↦ some (exception_reason why)
          ]
            ≡ r
          → ((q : Option Reason)
              → failed_reason client max_retries encoded member specs ≡ q
              → any (fails member) specs ≡ elim q [ none ↦ false | some reason ↦ true ])
          → (is_failure put || any (fails member) specs)
            ≡ elim r [ none ↦ false | some reason ↦ true ]
      by_put done e below = below r e
      by_put (failed reason) e below = rw (← e) refl
      by_put (thrown why) e below = rw (← e) refl

  module _ (loop : WalrusCommitteeMember → EventLoop PutSpec) where
    -- How the loop over the PUTs ends: none fails, or one does, or the node's own task is cancelled.
    data PutsOk (member : WalrusCommitteeMember) (specs : List PutSpec) : PutsEnd → Type 0 where
      none_fails : any (fails member) specs ≡ false → PutsOk member specs all_done
      one_fails :
          (reason : Reason)
          → any (fails member) specs ≡ true
          → PutsOk member specs (first_failed reason)
      stopped : PutsOk member specs interrupted

    puts_loop-PutsOk :
        (member : WalrusCommitteeMember)
        → EventLoopLaws (loop member)
        → (fuel k : ℕ) (specs : List PutSpec) → length specs ≤ fuel
        → PutsOk member specs (puts_loop client max_retries encoded loop member fuel k specs)
    unfolding puts_loop
    puts_loop-PutsOk member laws fuel k [] le = none_fails refl
    puts_loop-PutsOk member laws zero k (spec ∷ specs) le = absurd (omega arith)
    puts_loop-PutsOk member laws (suc fuel) k (spec ∷ specs) le =
        elim (Option-cases ((loop member).first_completed k (spec ∷ specs))) [
          | inl n ↦ rw (n, puts_loop) stopped
          | inr ((finished, rest), y) ↦
              let le' =
                rest-shorter (loop member) laws k fuel (spec ∷ specs) finished rest (λ p. cc) le
                  y in
              let parts =
                any-Perm (fails member) _ _ (laws.first_parts k (spec ∷ specs) finished rest y) in
              let both = any-append (fails member) finished rest in
              rw (y, puts_loop)
                (by_reason finished rest (sym both ∙ parts)
                  (failed_reason client max_retries encoded member finished) refl
                  (puts_loop-PutsOk member laws fuel (k + 1) rest le'))
        ]
      where
        by_reason :
            (finished rest : List PutSpec)
            → (any (fails member) finished || any (fails member) rest)
              ≡ any (fails member) (spec ∷ specs)
            → (r : Option Reason) → failed_reason client max_retries encoded member finished ≡ r
            → PutsOk member rest
                (puts_loop client max_retries encoded loop member fuel (k + 1) rest)
            → PutsOk member (spec ∷ specs) (elim r [
              | some reason ↦ first_failed reason
              | none ↦ puts_loop client max_retries encoded loop member fuel (k + 1) rest
            ])
        by_reason finished rest split (some reason) e later =
            one_fails reason
              (ground (arith, split, failed_reason-fails member finished (some reason) e))
        by_reason finished rest split none e later =
            let same : any (fails member) rest ≡ any (fails member) (spec ∷ specs) =
              ground (arith, split, failed_reason-fails member finished none e) in
            again same later
          where
            again :
                {end : PutsEnd}
                → any (fails member) rest ≡ any (fails member) (spec ∷ specs)
                → PutsOk member rest end
                → PutsOk member (spec ∷ specs) end
            again same (none_fails clean) = none_fails (sym same ∙ clean)
            again same (one_fails reason bad) = one_fails reason (sym same ∙ bad)
            again same stopped = stopped

    -- How the upload of a node at this position of the committee ends: with an outcome that has
    -- succeeded, and then the node has stored everything; or with one that says that the metadata or a
    -- sliver was not stored; or it raises.
    pub data Uploaded (position : ℕ) (member : WalrusCommitteeMember) : NodeTask → Type 0 where
      stored :
          IsStored member → Uploaded position member (returned (outcome_with position member none))
      metadata_failed :
          (reason : String)
          → metadata_put client max_retries encoded member ≡ failed reason
          → Uploaded position member
              (returned (outcome_with position member (some (metadata_reason reason))))
      sliver_failed :
          (reason : Reason) (specs : List PutSpec)
          → put_specs encoded.slivers member.shard_indices ≡ ok specs
          → any (fails member) specs ≡ true
          → Uploaded position member (returned (outcome_with position member (some reason)))
      metadata_raised :
          (why : String)
          → metadata_put client max_retries encoded member ≡ thrown why
          → Uploaded position member (raised (exception_reason why))
      no_sliver :
          (e : Error)
          → put_specs encoded.slivers member.shard_indices ≡ err e
          → Uploaded position member (raised (error_reason e))
      task_cancelled : Uploaded position member (raised (error_reason cancelled))

    module _ (committee : WalrusCommittee) (position : ℕ) (member : WalrusCommitteeMember)
        (placed : position_of committee member.node_id ≡ ok position) where
      node_outcome-ok :
          (reason : Option Reason)
          → or_raised (node_outcome committee member reason)
            ≡ returned (outcome_with position member reason)
      unfolding node_outcome
      node_outcome-ok reason = rw placed refl

      upload_slivers_of-Uploaded :
          (specs : Result (List PutSpec))
          → EventLoopLaws (loop member)
          → metadata_put client max_retries encoded member ≡ done
          → put_specs encoded.slivers member.shard_indices ≡ specs
          → Uploaded position member
              (upload_slivers_of client max_retries encoded loop committee member specs)
      unfolding upload_slivers_of
      upload_slivers_of-Uploaded (err e) laws metadata listed = no_sliver e listed
      upload_slivers_of-Uploaded (ok specs) laws metadata listed =
          by_end (puts_loop-PutsOk member laws (length specs) 0 specs (le_refl _))
        where
          by_end :
              {end : PutsEnd}
              → PutsOk member specs end
              → Uploaded position member (after_puts committee member end)
          by_end (none_fails clean) = rw (node_outcome-ok none) (
              stored (record {
                metadata = metadata;
                specs = specs;
                listed = listed;
                puts =
                    All-map _ _ (λ spec e. no_failure _ e) specs
                      (any-All (fails member) specs clean);
              }))
          by_end (one_fails reason bad) =
              rw (node_outcome-ok (some reason)) (sliver_failed reason specs listed bad)
          by_end stopped = task_cancelled

      -- Under the laws of the event loop, the upload of a node that has a position in the committee
      -- ends. It succeeds only when the node has stored the metadata and both slivers of each of its
      -- shards; it returns a failed outcome only when the metadata or one of these slivers was not
      -- stored; and its task raises only when the metadata PUT raised, a shard has no sliver, or the
      -- task was cancelled.
      pub upload_node-Uploaded :
          EventLoopLaws (loop member)
          → Uploaded position member (upload_node client max_retries encoded loop committee member)
      unfolding upload_node
      upload_node-Uploaded laws = by_metadata (metadata_put client max_retries encoded member) refl
        where
          by_metadata :
              (put : Put)
              → metadata_put client max_retries encoded member ≡ put
              → Uploaded position member (elim put [
                | failed reason ↦
                    or_raised (node_outcome committee member (some (metadata_reason reason)))
                | thrown why ↦ raised (exception_reason why)
                | done ↦
                    upload_slivers_of client max_retries encoded loop committee member
                      (put_specs encoded.slivers member.shard_indices)
              ])
          by_metadata done e = upload_slivers_of-Uploaded _ laws e refl
          by_metadata (failed reason) e =
              rw (node_outcome-ok (some (metadata_reason reason))) (metadata_failed reason e)
          by_metadata (thrown why) e = metadata_raised why e
