-- ===== src/Transport/Retry/Replay.antt =====
-- The retrying client over a queue of canned responses, with no sleep: what the tests of the
-- extension run on.
use duckdb_google_calendar.Common.{
  ℕ, zero, suc, ◌+◌, ◌<◌, List, [], ◌∷◌, ◌++◌, ◌≡◌, ◌∙◌, ◌⊎◌, true, false, arith, length, drop,
  get_elem?_of_drop, drop_of_drop, All,
}
use duckdb_google_calendar.Common.Except.{Result, ok}
use duckdb_google_calendar.Transport.HttpType.{HttpRequest, HttpResponse}
use duckdb_google_calendar.Transport.Retry.{
  RetryConfig, is_retryable, no_response, execute_loop, execute, sleep_backoff,
}
use duckdb_google_calendar.Transport.Retry.Rounds.{loop_stop, loop_again, goes_on, stops, one_less}
use duckdb_google_calendar.Transport.Mock.{MockHttpClient, mock_client, execute as mock_execute}

abbrev pub moved : MockHttpClient → ℕ → MockHttpClient
moved m k = record m { response_index = k }

mock_call :
    (request : HttpRequest) (m : MockHttpClient) (r : HttpResponse) (more : List HttpResponse)
    → drop m.response_index m.responses ≡ r ∷ more
    → mock_client.execute request m ≡ (ok r, moved m (m.response_index + 1))
unfolding mock_client
mock_call request m r more h =
    rw (get_elem?_of_drop m.responses m.response_index r more h, mock_execute)

same_move :
    (r : HttpResponse) (m : MockHttpClient) (j k : ℕ)
    → j ≡ k
    → ◌≡◌ {A = Result HttpResponse × MockHttpClient} (ok r, moved m j) (ok r, moved m k)
same_move r m j k e = rw e

module _ (sleep_up_to : ℕ → MockHttpClient → MockHttpClient) (config : RetryConfig)
    (still : config.zero_sleep ≡ true) where
  no_sleep :
      (attempt : ℕ) (m : MockHttpClient)
      → sleep_backoff mock_client sleep_up_to config attempt m ≡ m
  unfolding sleep_backoff
  no_sleep attempt m = rw still

  loop_mock :
      (failed : List HttpResponse) (left attempt : ℕ) (request : HttpRequest)
      (last r : HttpResponse) (more : List HttpResponse) (m : MockHttpClient)
      → drop m.response_index m.responses ≡ failed ++ (r ∷ more)
      → attempt + left ≡ config.max_attempts
      → All (λ f. is_retryable f ≡ true) failed
      → length failed < left
      → (is_retryable r ≡ false) ⊎ (length failed + 1 ≡ left)
      → execute_loop mock_client sleep_up_to config left attempt request last m
        ≡ (ok r, moved m (m.response_index + length failed + 1))
  loop_mock failed zero attempt request last r more m queue e all h stop = absurd (omega arith)
  loop_mock [] (suc left) attempt request last r more m queue e all h stop =
      loop_stop _ _ config left attempt request last m r _ (mock_call request m r more queue)
        (stops config left attempt r e stop)
      ∙ same_move r m _ _ (omega arith)
  loop_mock (f ∷ failed) (suc left) attempt request last r more m queue e (again, all) h stop =
      loop_again _ _ config left attempt request last m f _ (mock_call request m f _ queue)
        (goes_on config left attempt (length failed) f e again (omega arith))
      ∙ rw (no_sleep attempt (moved m (m.response_index + 1))) (
          loop_mock failed left (attempt + 1) request f r more (moved m (m.response_index + 1))
            (drop_of_drop m.responses m.response_index f _ queue) (omega arith) all (omega arith)
            (one_less r (length failed) left stop))
      ∙ same_move r m (m.response_index + 1 + length failed + 1) _ (omega arith)

  -- Over a queue of responses, and without sleep: if the first ones may be retried and are fewer
  -- than the attempts, and the one behind them is final or the last that the attempts allow, the
  -- retrying client returns that one and has used up exactly the responses up to it.
  pub execute_replay :
      (request : HttpRequest) (failed : List HttpResponse) (r : HttpResponse)
      (more : List HttpResponse) (m : MockHttpClient)
      → drop m.response_index m.responses ≡ failed ++ (r ∷ more)
      → All (λ f. is_retryable f ≡ true) failed
      → length failed < config.max_attempts
      → (is_retryable r ≡ false) ⊎ (length failed + 1 ≡ config.max_attempts)
      → execute mock_client sleep_up_to config request m
        ≡ (ok r, moved m (m.response_index + length failed + 1))
  unfolding execute
  execute_replay request failed r more m queue all h stop =
      loop_mock failed config.max_attempts 0 request no_response r more m queue (omega arith) all h
        stop
