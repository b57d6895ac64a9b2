-- ===== src/Transport/Retry/Serve.antt =====
-- The retrying client, without sleep, over any client that answers from a queue.
use duckdb_google_calendar.Common.{
  ℕ, zero, suc, ◌+◌, ◌<◌, List, [], ◌∷◌, ◌++◌, ◌≡◌, ◌∙◌, ◌⊎◌, true, false, arith, length, All,
}
use duckdb_google_calendar.Common.Except.{ok}
use duckdb_google_calendar.Transport.HttpType.{HttpClient, HttpRequest, HttpResponse}
use duckdb_google_calendar.Transport.Retry.{RetryConfig, is_retryable, execute_loop, sleep_backoff}
use duckdb_google_calendar.Transport.Retry.Rounds.{loop_stop, loop_again, goes_on, stops, one_less}

-- A client that answers from a queue, which a view of the world shows, and keeps another view.
abbrev pub Serves : {W X : Type 0} → HttpClient W → (W → List HttpResponse) → (W → X) → Type 0
Serves {W} client queue kept =
    (request : HttpRequest) (w : W) (r : HttpResponse) (more : List HttpResponse)
    → queue w ≡ r ∷ more
    → (w' : W) × (client.execute request w ≡ (ok r, w')) × (queue w' ≡ more) × (kept w' ≡ kept w)

module _ {W X : Type 0} (inner : HttpClient W) (queue : W → List HttpResponse) (kept : W → X)
    (serves : Serves inner queue kept) (sleep_up_to : ℕ → W → W) (config : RetryConfig)
    (still : config.zero_sleep ≡ true) where
  no_sleep : (attempt : ℕ) (w : W) → sleep_backoff inner sleep_up_to config attempt w ≡ w
  unfolding sleep_backoff
  no_sleep attempt w = rw still

  -- A round over a queue stops at a final answer, and else goes on with the rest.
  pub loop_serves :
      (failed : List HttpResponse) (left attempt : ℕ) (request : HttpRequest)
      (last r : HttpResponse) (more : List HttpResponse) (w : W)
      → queue w ≡ failed ++ (r ∷ more)
      → attempt + left ≡ config.max_attempts
      → All (λ f. is_retryable f ≡ true) failed
      → length failed < left
      → (is_retryable r ≡ false) ⊎ (length failed + 1 ≡ left)
      → (w' : W) × (execute_loop inner sleep_up_to config left attempt request last w ≡ (ok r, w'))
        × (queue w' ≡ more)
        × (kept w' ≡ kept w)
  loop_serves failed zero attempt request last r more w q e all h stop = absurd (omega arith)
  loop_serves [] (suc left) attempt request last r more w q e all h stop =
      let (w1, answered, rest, same) = serves request w r more q in
      (
        w1,
        loop_stop inner sleep_up_to config left attempt request last w r w1 answered
            (stops config left attempt r e stop),
        rest,
        same,
      )
  loop_serves (f ∷ failed) (suc left) attempt request last r more w q e (again, all) h stop =
      let (w1, answered, rest, same) = serves request w f (failed ++ (r ∷ more)) q in
      let (w2, done, rest', same') =
        loop_serves failed left (attempt + 1) request f r more w1 rest (omega arith) all
          (omega arith) (one_less r (length failed) left stop) in
      (
        w2,
        loop_again inner sleep_up_to config left attempt request last w f w1 answered
              (goes_on config left attempt (length failed) f e again (omega arith))
            ∙ rw (no_sleep attempt w1) done,
        rest',
        same' ∙ same,
      )
