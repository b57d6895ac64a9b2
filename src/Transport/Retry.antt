-- ===== src/Transport/Retry.antt =====
-- src/calendar/transport/retrying_http_client.cpp
pub mod Rounds
pub mod Laws
pub mod Replay
pub mod Serve
use duckdb_google_calendar.Common.{
  ℕ, zero, suc, ◌+◌, ◌*◌, ◌^◌, [], codes, Bytes, Bool, true, false, not, ◌&&◌, ◌||◌, ◌==◌, nat_eq,
  leb, if◌then◌else◌, contains,
}
use duckdb_google_calendar.Common.Except.{Exec, Result, ok, throw, pure, ◌>>=◌, ◌>>◌}
use duckdb_google_calendar.Transport.HttpType.{HttpClient, HttpRequest, HttpResponse}

pub record RetryConfig : Type 0 where
  pub max_attempts : ℕ
  pub base_delay_ms : ℕ
  pub zero_sleep : Bool

-- The values that `RetryConfig()` has.
abbrev pub default_config : RetryConfig
default_config = record { max_attempts = 5; base_delay_ms = 1000; zero_sleep = false }

unfoldable pub is_retryable : HttpResponse → Bool
is_retryable response =
    let s = response.status_code in
    if s == 429
    then true
    else if leb 500 s && leb s 599
    then true
    else if s == 403
    then contains response.body (codes "rateLimitExceeded")
      || contains response.body (codes "userRateLimitExceeded")
    else false

-- `HttpResponse response;` before the loop.
abbrev pub no_response : HttpResponse
no_response = record { status_code = 0; headers = []; body = [] }

-- `sleep_up_to d` draws a delay from 0 to `d` milliseconds and sleeps for it.
module _ {W : Type 0} (inner : HttpClient W) (sleep_up_to : ℕ → W → W) (config : RetryConfig) where
  pub sleep_backoff : ℕ → W → W
  sleep_backoff attempt w =
      if config.zero_sleep then w else sleep_up_to (config.base_delay_ms * 2 ^ attempt) w

  -- The loop: `left` attempts remain, `attempt` is the source's counter.
  pub execute_loop : ℕ → ℕ → HttpRequest → HttpResponse → Exec W HttpResponse
  execute_loop zero attempt request response = pure response
  execute_loop (suc left) attempt request _ = do
    response ← inner.execute request
    let retry =
        λ (w : W). execute_loop left (attempt + 1) request response (sleep_backoff attempt w)
    if not (is_retryable response) || attempt + 1 == config.max_attempts
        then pure response
        else retry

  pub execute : HttpRequest → Exec W HttpResponse
  unfolding execute_loop sleep_backoff
  execute request = execute_loop config.max_attempts 0 request no_response

-- The wrapped client is a client again.
unfoldable pub retrying_client :
    {W : Type 0} → HttpClient W → (ℕ → W → W) → RetryConfig → HttpClient W
unfolding execute
retrying_client inner sleep_up_to config = record { execute = execute inner sleep_up_to config }
