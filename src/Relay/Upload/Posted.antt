-- ===== src/Relay/Upload/Posted.antt =====
-- How upload_to_relay (pytusk/core/relay_upload/upload.py) ends, and which requests it makes.
use native.Mathlib.Nat.{pow-succ'}
use pytusk.Prelude.{
  ℕ, zero, suc, ◌+◌, ◌*◌, ◌^◌, ◌≤◌, ◌<◌, min, ◌≡◌, ◌≢◌, ◌⊎◌, refl, ap, ◌∙◌, sym, subst, arith,
  String, true, false, Option, none, some, List, [], ◌∷◌, replicate, Bool-cases, inl, inr, ltb,
  ◌==◌, ==_iff, ltb→lt, ltb_false→le,
}
use pytusk.Errors.{ok, err, value_error}
use pytusk.Relay.Upload.{
  RelayUploadOutcome, uploaded, refused, unanswered, RelayUploadAck, WriteRelayBlob, Reply,
  accepted, failed, RelayUploadResult, Posts, last_result, one_post, post_then, is_definitive,
  gives_up, post_attempts, upload_to_relay,
}

-- The relay has answered no, for good: with no status, or one below 500 that does not mean "not now".
abbrev pub IsRefusal : {Cert : Type 0} → Reply Cert → Type 0
IsRefusal (accepted ack) = ⊥
IsRefusal (failed none message) = ⊥
IsRefusal (failed (some ack) message) =
    (ack.relay_status ≡ none)
    ⊎ ((status : ℕ) × (ack.relay_status ≡ some status)
        × (status < 500)
        × (status ≢ 408)
        × (status ≢ 425)
        × (status ≢ 429))

-- No answer, a server error, or "not now".
abbrev pub IsRetryable : {Cert : Type 0} → Reply Cert → Type 0
IsRetryable (accepted ack) = ⊥
IsRetryable (failed none message) = Unit
IsRetryable (failed (some ack) message) =
    (status : ℕ) × (ack.relay_status ≡ some status)
    × ((500 ≤ status) ⊎ ((status ≡ 408) ⊎ ((status ≡ 425) ⊎ (status ≡ 429))))

definitive :
    (status : Option ℕ)
    → is_definitive status ≡ true
    → (status ≡ none)
      ⊎ ((n : ℕ) × (status ≡ some n) × (n < 500) × (n ≢ 408) × (n ≢ 425) × (n ≢ 429))
unfolding is_definitive
definitive none e = inl refl
definitive (some n) e = inr (n, refl, ground arith, ground arith, ground arith, ground arith)

not_definitive :
    (status : Option ℕ)
    → is_definitive status ≡ false
    → (n : ℕ) × (status ≡ some n) × ((500 ≤ n) ⊎ ((n ≡ 408) ⊎ ((n ≡ 425) ⊎ (n ≡ 429))))
unfolding is_definitive
not_definitive none e = cc
not_definitive (some n) e = (
  n,
  refl,
  elim (Bool-cases (ltb n 500)) [
    | inr m ↦ inl (ltb_false→le n 500 m)
    | inl y ↦ inr (elim (Bool-cases (n == 408)) [
      | inl h ↦ inl ((==_iff n 408).0 h)
      | inr h ↦ inr (elim (Bool-cases (n == 425)) [
        | inl k ↦ inl ((==_iff n 425).0 k)
        | inr k ↦ inr (elim (Bool-cases (n == 429)) [
          | inl l ↦ (==_iff n 429).0 l
          | inr l ↦ cc (rw (y, h, k, l) at e)
        ])
      ])
    ])
  ],
)

-- The delays of an exponential backoff with a ceiling, from the k-th on.
abbrev pub backoff : ℕ → ℕ → List ℕ
backoff k zero = []
backoff k (suc n) = min (2 ^ k) 16 ∷ backoff (suc k) n

module _ {Cert : Type 0} where
  Reply-cases :
      (r : Reply Cert)
      → ((ack : RelayUploadAck Cert) × (r ≡ accepted ack))
        ⊎ ((ack : Option (RelayUploadAck Cert)) × (message : String) × (r ≡ failed ack message))
  Reply-cases (accepted ack) = inl (ack, refl)
  Reply-cases (failed ack message) = inr (ack, message, refl)

  refusal :
      (ack : Option (RelayUploadAck Cert)) (message : String)
      → gives_up ack ≡ true
      → IsRefusal (failed ack message)
  unfolding gives_up
  refusal none message e = cc
  refusal (some ack) message e = definitive ack.relay_status e

  retryable :
      (ack : Option (RelayUploadAck Cert)) (message : String)
      → gives_up ack ≡ false
      → IsRetryable (failed ack message)
  unfolding gives_up
  retryable none message e = tt
  retryable (some ack) message e = not_definitive ack.relay_status e

  -- The reply that ends the attempts, and the result for it.
  pub data Ended (reply : Reply Cert) (last : Type 0) (result : RelayUploadResult Cert)
      : Type 0 where
    was_uploaded :
        (ack : RelayUploadAck Cert)
        → reply ≡ accepted ack
        → result.outcome ≡ uploaded
        → result.certificate ≡ ack.confirmation_certificate
        → Ended reply last result
    was_refused :
        IsRefusal reply
        → result.outcome ≡ refused
        → result.certificate ≡ none
        → Ended reply last result
    was_unanswered :
        last
        → IsRetryable reply
        → result.outcome ≡ unanswered
        → result.certificate ≡ none
        → Ended reply last result

  Ended-later :
      (reply : Reply Cert) (more left : ℕ) (result : RelayUploadResult Cert)
      → Ended reply (more ≡ left) result
      → Ended reply (suc more ≡ suc left) result
  Ended-later reply more left result (was_uploaded ack r o c) = was_uploaded ack r o c
  Ended-later reply more left result (was_refused r o c) = was_refused r o c
  Ended-later reply more left result (was_unanswered last r o c) =
      was_unanswered (ap suc last) r o c

  module _ (post : WriteRelayBlob → ℕ → Reply Cert) (command : WriteRelayBlob)
      (relay_url : String) where
    -- The attempts from one on, with `left` more allowed and `k` delays slept before it.
    pub record IsPosted (first left k : ℕ) (out : Posts Cert) : Type 0 where
      pub more : ℕ
      pub within : more ≤ left
      pub attempts : out.result.attempts ≡ first + more
      pub posts : out.posted ≡ replicate (suc more) command
      pub sleeps : out.slept ≡ backoff k more
      pub before : (i : ℕ) → first ≤ i → i < first + more → IsRetryable (post command i)
      pub ended : Ended (post command (first + more)) (more ≡ left) out.result
      pub digest : out.result.register_tip_tx_digest ≡ command.register_tip_tx_digest
      pub nonce : out.result.nonce ≡ command.nonce

    at_once :
        (first left k : ℕ) (result : RelayUploadResult Cert)
        → result.attempts ≡ first
        → Ended (post command first) (◌≡◌ {A = ℕ} 0 left) result
        → result.register_tip_tx_digest ≡ command.register_tip_tx_digest
        → result.nonce ≡ command.nonce
        → IsPosted first left k (record { posted = command ∷ []; slept = []; result = result })
    at_once first left k result a e d n = record {
      more = 0;
      within = omega arith;
      attempts = omega (arith, a);
      posts = refl;
      sleeps = refl;
      before = λ i h l. absurd (omega arith);
      ended = subst (λ j. Ended (post command j) (◌≡◌ {A = ℕ} 0 left) result) (omega arith) e;
      digest = d;
      nonce = n;
    }

    later :
        (first left k : ℕ) (out : Posts Cert)
        → IsRetryable (post command first)
        → IsPosted (first + 1) left (suc k) out
        → IsPosted first (suc left) k (record {
          posted = command ∷ out.posted;
          slept = min (2 ^ k) 16 ∷ out.slept;
          result = out.result;
        })
    later first left k out now is =
        let shifted : first + 1 + is.more ≡ first + suc is.more = omega arith in
        record {
          more = suc is.more;
          within = omega (arith, is.within);
          attempts = is.attempts ∙ shifted;
          posts = ap (◌∷◌ command) is.posts;
          sleeps = ap (◌∷◌ (min (2 ^ k) 16)) is.sleeps;
          before = λ i h l. elim (Bool-cases (ltb first i)) [
            | inl y ↦ is.before i (omega (arith, ltb→lt first i y)) (omega arith)
            | inr n ↦
                let here : first ≡ i = omega (arith, ltb_false→le first i n) in
                subst (λ j. IsRetryable (post command j)) here now
          ];
          ended =
              subst (λ j. Ended (post command j) (suc is.more ≡ suc left) out.result) shifted
                (Ended-later (post command (first + 1 + is.more)) is.more left out.result is.ended);
          digest = is.digest;
          nonce = is.nonce;
        }

    last_facts :
        (outcome : RelayUploadOutcome) (ack : Option (RelayUploadAck Cert)) (message : String)
        (n : ℕ)
        → let out = last_result outcome relay_url command ack message n in
          (out.attempts ≡ n)
          × (out.outcome ≡ outcome)
          × (out.certificate ≡ none)
          × (out.register_tip_tx_digest ≡ command.register_tip_tx_digest)
          × (out.nonce ≡ command.nonce)
    last_facts outcome none message n = (refl, refl, refl, refl, refl)
    last_facts outcome (some ack) message n = (refl, refl, refl, refl, refl)

    refused_at_once :
        (first left k : ℕ) (ack : Option (RelayUploadAck Cert)) (message : String)
        → IsRefusal (post command first)
        → IsPosted first left k
            (one_post command (last_result refused relay_url command ack message first))
    refused_at_once first left k ack message h =
        let (a, o, c, d, n) = last_facts refused ack message first in
        at_once first left k (last_result refused relay_url command ack message first) a
          (was_refused h o c) d n

    unanswered_at_once :
        (first k : ℕ) (ack : Option (RelayUploadAck Cert)) (message : String)
        → IsRetryable (post command first)
        → IsPosted first 0 k
            (one_post command (last_result unanswered relay_url command ack message first))
    unanswered_at_once first k ack message h =
        let (a, o, c, d, n) = last_facts unanswered ack message first in
        at_once first 0 k (last_result unanswered relay_url command ack message first) a
          (was_unanswered refl h o c) d n

    doubled : (k : ℕ) → min (min (2 ^ k) 16 * 2) 16 ≡ min (2 ^ suc k) 16
    doubled k = omega (arith, pow-succ' 2 k)

    post_attempts-IsPosted :
        (left first k : ℕ) (delay : ℕ)
        → delay ≡ min (2 ^ k) 16
        → IsPosted first left k (post_attempts post command relay_url left first delay)
    unfolding post_attempts
    post_attempts-IsPosted zero first k delay d = elim (Reply-cases (post command first)) [
      | inl (ack, r) ↦
          rw (r, post_attempts) (at_once first 0 k _ refl (was_uploaded ack r refl refl) refl refl)
      | inr (ack, message, r) ↦ elim (Bool-cases (gives_up ack)) [
        | inl y ↦
            rw (r, post_attempts)
              (rw y (
                refused_at_once first 0 k ack message
                  (subst IsRefusal (sym r) (refusal ack message y))))
        | inr n ↦
            rw (r, post_attempts)
              (rw n (
                unanswered_at_once first k ack message
                  (subst IsRetryable (sym r) (retryable ack message n))))
      ]
    ]
    post_attempts-IsPosted (suc left) first k delay d = elim (Reply-cases (post command first)) [
      | inl (ack, r) ↦
          rw (r, post_attempts)
            (at_once first (suc left) k _ refl (was_uploaded ack r refl refl) refl refl)
      | inr (ack, message, r) ↦ elim (Bool-cases (gives_up ack)) [
        | inl y ↦
            rw (r, post_attempts)
              (rw y (
                refused_at_once first (suc left) k ack message
                  (subst IsRefusal (sym r) (refusal ack message y))))
        | inr n ↦
            rw (r, post_attempts)
              (rw n (
                subst
                  (λ w. IsPosted first (suc left) k (
                    post_then command w
                      (post_attempts post command relay_url left (first + 1) (min (delay * 2) 16))))
                  (sym d)
                  (later first left k
                    (post_attempts post command relay_url left (first + 1) (min (delay * 2) 16))
                    (subst IsRetryable (sym r) (retryable ack message n))
                    (post_attempts-IsPosted left (first + 1) (suc k) (min (delay * 2) 16)
                      (ap (λ w. min (w * 2) 16) d ∙ doubled k)))))
      ]
    ]

    -- Whatever the relay answers: upload_to_relay raises a ValueError if it is allowed no attempt, and otherwise
    -- returns, after some attempts, no more than allowed. All of its POSTs are the same, with the given
    -- digest and nonce, and between them it sleeps half a second, twice as long each time, and eight
    -- seconds at most. Every reply before the last is one to retry on. The result is uploaded, with the
    -- certificate, if the last POST was accepted; refused if it met a definitive refusal; and unanswered only
    -- if it was the last that is allowed, and its reply one to retry on.
    pub upload_to_relay-IsPosted :
        (max_attempts : ℕ)
        → ((max_attempts ≡ 0)
            × (upload_to_relay post command relay_url max_attempts ≡ err value_error))
          ⊎ ((left : ℕ) × (out : Posts Cert) × (max_attempts ≡ suc left)
              × (upload_to_relay post command relay_url max_attempts ≡ ok out)
              × IsPosted 1 left 0 out)
    unfolding upload_to_relay
    upload_to_relay-IsPosted zero = inl (refl, refl)
    upload_to_relay-IsPosted (suc left) =
        inr (left, _, refl, refl, post_attempts-IsPosted left 1 0 1 (omega arith))
