-- ===== src/Transport/Retry/Rounds.antt =====
-- The three ways in which a round of the retry loop goes on.
use duckdb_google_calendar.Common.{
  ℕ, suc, ◌+◌, ◌<◌, ◌≡◌, ◌⊎◌, inl, inr, Bool, true, false, not, ◌||◌, ◌==◌, nat_eq, arith,
}
use duckdb_google_calendar.Common.Except.{Result, ok, throw, Exception}
use duckdb_google_calendar.Transport.HttpType.{HttpClient, HttpRequest, HttpResponse}
use duckdb_google_calendar.Transport.Retry.{RetryConfig, is_retryable, execute_loop, sleep_backoff}

abbrev pub must_stop : RetryConfig → ℕ → HttpResponse → Bool
must_stop config attempt response =
    not (is_retryable response) || attempt + 1 == config.max_attempts

module _ {W : Type 0} (inner : HttpClient W) (sleep_up_to : ℕ → W → W) (config : RetryConfig)
    (left attempt : ℕ) (request : HttpRequest) (last : HttpResponse) (w : W) where
  abbrev pub run : Result HttpResponse × W
  run = execute_loop inner sleep_up_to config (suc left) attempt request last w

  pub loop_throw :
      (e : Exception) (w' : W) → inner.execute request w ≡ (throw e, w') → run ≡ (throw e, w')
  unfolding execute_loop
  loop_throw e w' h = rw h

  pub loop_stop :
      (response : HttpResponse) (w' : W)
      → inner.execute request w ≡ (ok response, w')
      → must_stop config attempt response ≡ true
      → run ≡ (ok response, w')
  unfolding execute_loop
  loop_stop response w' h stop = rw (h, stop)

  pub loop_again :
      (response : HttpResponse) (w' : W)
      → inner.execute request w ≡ (ok response, w')
      → must_stop config attempt response ≡ false
      → run
        ≡ execute_loop inner sleep_up_to config left
            (attempt + 1)
            request
            response
            (sleep_backoff inner sleep_up_to config attempt w')
  unfolding execute_loop
  loop_again response w' h again = rw (h, again)

-- Where attempts are left, and where they are not.
pub goes_on :
    (config : RetryConfig) (left attempt k : ℕ) (f : HttpResponse)
    → attempt + suc left ≡ config.max_attempts
    → is_retryable f ≡ true
    → k < left
    → must_stop config attempt f ≡ false
goes_on config left attempt k f e again h = ground arith

pub stops :
    (config : RetryConfig) (left attempt : ℕ) (r : HttpResponse)
    → attempt + suc left ≡ config.max_attempts
    → (is_retryable r ≡ false) ⊎ (1 ≡ suc left)
    → must_stop config attempt r ≡ true
stops config left attempt r e (inl final) = ground arith
stops config left attempt r e (inr last) = ground arith

pub one_less :
    (r : HttpResponse) (n left : ℕ)
    → (is_retryable r ≡ false) ⊎ (suc n + 1 ≡ suc left)
    → (is_retryable r ≡ false) ⊎ (n + 1 ≡ left)
one_less r n left (inl final) = inl final
one_less r n left (inr count) = inr (omega arith)
