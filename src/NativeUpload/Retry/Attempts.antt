-- ===== src/NativeUpload/Retry/Attempts.antt =====
-- The attempts of a PUT (pytusk/core/native_upload/fanout.py).
use pytusk.Prelude.{
  ℕ, zero, suc, ◌+◌, ◌≤◌, ◌≡◌, refl, ap, ◌∙◌, String, Bool, true, false, arith, if◌then◌else◌,
}
use pytusk.NativeUpload.Retry.{
  Response, stored, refused, raised, Put, done, failed, thrown, FanoutProgress, attempted,
  last_attempt, metadata_from, put_metadata, sliver_from, put_sliver,
}

module _ (send : ℕ → Response) where
  -- The attempts from `first`, `count` of them, were all refused.
  abbrev pub AllRefused : ℕ → ℕ → Type 0
  AllRefused first zero = Unit {0}
  AllRefused first (suc count) =
      ((reason : String) × (send first ≡ refused reason)) × AllRefused (first + 1) count

  -- A PUT that may retry `left` times from the attempt `first` on ends at the first attempt that is
  -- not refused, or at the last one.
  pub data EndsAt (left first : ℕ) : Put → ℕ → Type 0 where
    at_stored :
        (k : ℕ)
        → k ≤ left
        → AllRefused first k
        → send (first + k) ≡ stored
        → EndsAt left first done k
    at_raised :
        (k : ℕ) (why : String)
        → k ≤ left
        → AllRefused first k
        → send (first + k) ≡ raised why
        → EndsAt left first (thrown why) k
    at_last :
        (reason : String)
        → AllRefused first left
        → send (first + left) ≡ refused reason
        → EndsAt left first (failed reason) left

  plus_zero : (n : ℕ) → n + 0 ≡ n
  plus_zero n = omega arith

  last-EndsAt : (first : ℕ) (r : Response) → send first ≡ r → EndsAt 0 first (last_attempt r) 0
  last-EndsAt first stored e = at_stored 0 (omega arith) tt (ap send (plus_zero first) ∙ e)
  last-EndsAt first (refused reason) e = at_last reason tt (ap send (plus_zero first) ∙ e)
  last-EndsAt first (raised why) e =
      at_raised 0 why (omega arith) tt (ap send (plus_zero first) ∙ e)

  -- One refused attempt more.
  EndsAt-later :
      (left first : ℕ) (put : Put) (k : ℕ) (reason : String)
      → send first ≡ refused reason
      → EndsAt left (first + 1) put k
      → EndsAt (suc left) first put (suc k)
  EndsAt-later left first put k reason e (at_stored _ le before there) =
      at_stored (suc k) (omega arith) ((reason, e), before) (ap send (omega arith) ∙ there)
  EndsAt-later left first put k reason e (at_raised _ why le before there) =
      at_raised (suc k) why (omega arith) ((reason, e), before) (ap send (omega arith) ∙ there)
  EndsAt-later left first put k reason e (at_last final before there) =
      at_last final ((reason, e), before) (ap send (omega arith) ∙ there)

  abbrev pub is_done : Put → Bool
  is_done done = true
  is_done (failed reason) = false
  is_done (thrown why) = false

  -- What `attempts` attempts of one PUT leave of the counters.
  pub record IsCounted (before after : FanoutProgress) (put : Put) (attempts : ℕ) : Type 0 where
    pub in_flight : after.puts_in_flight ≡ before.puts_in_flight
    pub completed : after.puts_completed ≡ before.puts_completed + (if is_done put then 1 else 0)
    pub tried :
        after.puts_completed + after.puts_failed
        ≡ before.puts_completed + before.puts_failed + attempts

  last-IsCounted :
      (r : Response) (p : FanoutProgress) → IsCounted p (attempted r p) (last_attempt r) 1
  last-IsCounted stored p = record {
    in_flight = omega arith;
    completed = omega arith;
    tried = omega arith;
  }
  last-IsCounted (refused reason) p = record {
    in_flight = omega arith;
    completed = omega arith;
    tried = omega arith;
  }
  last-IsCounted (raised why) p = record {
    in_flight = omega arith;
    completed = omega arith;
    tried = omega arith;
  }

  IsCounted-later :
      (reason : String) (before after : FanoutProgress) (put : Put) (attempts : ℕ)
      → IsCounted (attempted (refused reason) before) after put attempts
      → IsCounted before after put (suc attempts)
  IsCounted-later reason before after put attempts is = record {
    in_flight = omega (arith, is.in_flight);
    completed = is.completed;
    tried = omega (arith, is.tried);
  }

  -- An end of a PUT with its attempts and the progress.
  abbrev Ended : ℕ → ℕ → FanoutProgress → Put × FanoutProgress → Type 0
  Ended left first p (put, after) =
      (k : ℕ) × EndsAt left first put k × IsCounted p after put (suc k)

  sliver_from-Ended :
      (left first : ℕ) (p : FanoutProgress) → Ended left first p (sliver_from send left first p)
  unfolding sliver_from
  sliver_from-Ended zero first p =
      (0, last-EndsAt first (send first) refl, last-IsCounted (send first) p)
  sliver_from-Ended (suc left) first p =
      by_response (send first) (attempted (send first) p) refl refl
        (sliver_from-Ended left (first + 1) (attempted (send first) p))
    where
      by_response :
          (r : Response) (q : FanoutProgress)
          → send first ≡ r
          → attempted r p ≡ q
          → Ended left (first + 1) q (sliver_from send left (first + 1) q)
          → Ended (suc left) first p (elim r [
            | stored ↦ (done, q)
            | raised why ↦ (thrown why, q)
            | refused reason ↦ sliver_from send left (first + 1) q
          ])
      by_response stored q e same later = (
        0,
        at_stored 0 (omega arith) tt (ap send (plus_zero first) ∙ e),
        rw (← same) (last-IsCounted stored p),
      )
      by_response (raised why) q e same later = (
        0,
        at_raised 0 why (omega arith) tt (ap send (plus_zero first) ∙ e),
        rw (← same) (last-IsCounted (raised why) p),
      )
      by_response (refused reason) q e same (k, ends, counted) = (
        suc k,
        EndsAt-later left first _ k reason e ends,
        IsCounted-later reason p _ _ (suc k) (rw same counted),
      )

  metadata-sliver :
      (left first : ℕ) (p : FanoutProgress)
      → metadata_from send left first ≡ (sliver_from send left first p).0
  unfolding metadata_from sliver_from
  metadata-sliver zero first p = refl
  metadata-sliver (suc left) first p = by_response (send first) (metadata-sliver left (first + 1) _)
    where
      by_response :
          (r : Response)
          → metadata_from send left (first + 1)
            ≡ (sliver_from send left (first + 1) (attempted (send first) p)).0
          → elim r [
            | stored ↦ done
            | raised why ↦ thrown why
            | refused reason ↦ metadata_from send left (first + 1)
          ]
            ≡ (elim r as (λ _. Put × FanoutProgress) [
              | stored ↦ (done, attempted (send first) p)
              | raised why ↦ (thrown why, attempted (send first) p)
              | refused reason ↦ sliver_from send left (first + 1) (attempted (send first) p)
            ]).0
      by_response stored same = refl
      by_response (raised why) same = refl
      by_response (refused reason) same = same

  -- A sliver PUT ends, within max_retries attempts after the first: at the first attempt that is stored
  -- or raises, all before it having been refused, or at the last attempt, when all are refused. It
  -- leaves the in-flight counter as it was, counts each attempt once, and counts the PUT as completed
  -- exactly if it was stored.
  pub put_sliver-EndsAt :
      (max_retries : ℕ) (p : FanoutProgress)
      → (k : ℕ) × EndsAt max_retries 0 (put_sliver send max_retries p).0 k
        × IsCounted p (put_sliver send max_retries p).1 (put_sliver send max_retries p).0 (suc k)
  unfolding put_sliver
  put_sliver-EndsAt max_retries p = sliver_from-Ended max_retries 0 p

  -- put_metadata has the retry policy of put_sliver: the same responses end it alike, in whatever
  -- progress the sliver's attempts start.
  pub put_metadata-put_sliver :
      (max_retries : ℕ) (p : FanoutProgress)
      → put_metadata send max_retries ≡ (put_sliver send max_retries p).0
  unfolding put_metadata put_sliver
  put_metadata-put_sliver max_retries p = metadata-sliver max_retries 0 p
