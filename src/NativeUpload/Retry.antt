-- ===== src/NativeUpload/Retry.antt =====
-- _put_metadata and _put_sliver of pytusk/core/native_upload/fanout.py, and the counters of _FanoutProgress
-- that _put_sliver drives. What the client answers to each attempt is a parameter. A loop recurs on the
-- retries that are left, which are none when `attempt >= max_retries`. The semaphores and the sleeps between
-- attempts only delay a request; log calls are left out.
pub mod Attempts
use pytusk.Prelude.{ℕ, zero, suc, ◌+◌, ◌-◌, String, Bool, true, false, if◌then◌else◌}

-- The result of client.execute: ok, not ok with its result_string, or an exception.
pub data Response : Type 0 where
  stored : Response
  refused : String → Response
  raised : String → Response

-- How a PUT ends: (True, None), (False, reason), or with the exception of an attempt.
pub data Put : Type 0 where
  done : Put
  failed : String → Put
  thrown : String → Put

pub record FanoutProgress : Type 0 where
  pub puts_in_flight : ℕ
  pub puts_completed : ℕ
  pub puts_failed : ℕ

abbrev pub put_started : FanoutProgress → FanoutProgress
put_started p = record p { puts_in_flight = p.puts_in_flight + 1 }

abbrev pub put_finished : Bool → FanoutProgress → FanoutProgress
put_finished true p = record p {
  puts_in_flight = p.puts_in_flight - 1;
  puts_completed = p.puts_completed + 1;
}
put_finished false p = record p {
  puts_in_flight = p.puts_in_flight - 1;
  puts_failed = p.puts_failed + 1;
}

abbrev pub is_ok : Response → Bool
is_ok stored = true
is_ok (refused reason) = false
is_ok (raised why) = false

-- The progress after one attempt.
abbrev pub attempted : Response → FanoutProgress → FanoutProgress
attempted response p = put_finished (is_ok response) (put_started p)

-- The end when no retry is left.
abbrev pub last_attempt : Response → Put
last_attempt stored = done
last_attempt (refused reason) = failed reason
last_attempt (raised why) = thrown why

module _ (send : ℕ → Response) where
  pub metadata_from : ℕ → ℕ → Put
  metadata_from zero attempt = last_attempt (send attempt)
  metadata_from (suc left) attempt =
      let again = metadata_from left (attempt + 1) in
      elim (send attempt) [ stored ↦ done | raised why ↦ thrown why | refused reason ↦ again ]

  unfoldable pub put_metadata : ℕ → Put
  unfolding metadata_from
  put_metadata max_retries = metadata_from max_retries 0

  pub sliver_from : ℕ → ℕ → FanoutProgress → Put × FanoutProgress
  sliver_from zero attempt p = (last_attempt (send attempt), attempted (send attempt) p)
  sliver_from (suc left) attempt p =
      let again = sliver_from left (attempt + 1) (attempted (send attempt) p) in
      elim (send attempt) [
        | stored ↦ (done, attempted (send attempt) p)
        | raised why ↦ (thrown why, attempted (send attempt) p)
        | refused reason ↦ again
      ]

  unfoldable pub put_sliver : ℕ → FanoutProgress → Put × FanoutProgress
  unfolding sliver_from
  put_sliver max_retries p = sliver_from max_retries 0 p
