-- ===== src/Transport/Retry/Laws.antt =====
-- How often the retrying client calls the client inside it, what it returns, and how long it sleeps.
use duckdb_google_calendar.Common.{
  ℕ, zero, suc, ◌+◌, ◌≤◌, ◌<◌, ◌≡◌, refl, subst, sym, inl, inr, true, false, nat_eq, arith,
  Bool-cases,
}
use duckdb_google_calendar.Common.Except.{Result, ok, outcome_cases}
use duckdb_google_calendar.Transport.HttpType.{HttpClient, HttpRequest, HttpResponse}
use duckdb_google_calendar.Transport.Retry.{
  RetryConfig, is_retryable, no_response, execute_loop, execute, sleep_backoff,
}
use duckdb_google_calendar.Transport.Retry.Rounds.{must_stop, loop_throw, loop_stop, loop_again}

-- A client with a count of its calls beside its world.
pub counted : {W : Type 0} → HttpClient W → HttpClient (W × ℕ)
counted inner = record {
  execute = λ request (w, n). let (r, w') = inner.execute request w in (r, (w', n + 1));
}

pub on_world : {W : Type 0} → (ℕ → W → W) → ℕ → W × ℕ → W × ℕ
on_world f d (w, n) = (f d w, n)

-- At least one call and at most `limit` are made from the count `n` on. A response that may be
-- retried comes back only after the last of them.
abbrev pub Bounded : {W : Type 0} → ℕ → ℕ → Result HttpResponse × (W × ℕ) → Type 0
Bounded limit n (r, (w, n')) =
    (n < n')
    × (n' ≤ n + limit)
    × ((response : HttpResponse) → r ≡ ok response → is_retryable response ≡ true → n' ≡ n + limit)

module _ {W : Type 0} (inner : HttpClient W) (sleep_up_to : ℕ → W → W) (config : RetryConfig) where
  abbrev counted_loop : ℕ → ℕ → HttpRequest → HttpResponse → W × ℕ → Result HttpResponse × (W × ℕ)
  counted_loop = execute_loop (counted inner) (on_world sleep_up_to) config

  counted_call :
      (request : HttpRequest) (w : W) (n : ℕ) (r : Result HttpResponse) (w' : W)
      → inner.execute request w ≡ (r, w')
      → (counted inner).execute request (w, n) ≡ (r, (w', n + 1))
  unfolding counted
  counted_call request w n r w' h = rw h

  abbrev slept : ℕ → W × ℕ → W × ℕ
  slept = sleep_backoff (counted inner) (on_world sleep_up_to) config

  keeps_count :
      (attempt : ℕ) (w : W) (n : ℕ)
      → slept attempt (w, n) ≡ (sleep_backoff inner sleep_up_to config attempt w, n)
  unfolding sleep_backoff on_world
  keeps_count attempt w n = ground arith

  step_bounds :
      (left attempt : ℕ) (request : HttpRequest) (last : HttpResponse) (w : W) (n : ℕ)
      → attempt + suc left ≡ config.max_attempts
      → ((response : HttpResponse) (w' : W)
          → must_stop config attempt response ≡ false
          → Bounded
              (suc left)
              n
              (counted_loop left (attempt + 1) request response (slept attempt (w', n + 1))))
      → Bounded (suc left) n (counted_loop (suc left) attempt request last (w, n))
  step_bounds left attempt request last w n h rest =
      elim (outcome_cases (inner.execute request w)) [
        | inl (e, w', threw) ↦
            subst (Bounded (suc left) n)
              (sym (
                loop_throw _ _ config left attempt request last _ e _
                  (counted_call request w n _ w' threw)))
              (omega arith, omega arith, λ r same retry. cc same)
        | inr (response, w', gave) ↦
            let call = counted_call request w n _ w' gave in
            elim (Bool-cases (must_stop config attempt response)) [
              | inl stop ↦
                  subst (Bounded (suc left) n)
                    (sym (loop_stop _ _ config left attempt request last _ response _ call stop))
                    (omega arith, omega arith, λ r same retry. ground arith)
              | inr again ↦
                  subst (Bounded (suc left) n)
                    (sym (loop_again _ _ config left attempt request last _ response _ call again))
                    (rest response w' again)
            ]
      ]

  loop_bounds :
      (left attempt : ℕ) (request : HttpRequest) (last : HttpResponse) (w : W) (n : ℕ)
      → attempt + suc left ≡ config.max_attempts
      → Bounded (suc left) n (counted_loop (suc left) attempt request last (w, n))
  loop_bounds zero attempt request last w n h =
      step_bounds 0 attempt request last w n h λ response w' again. absurd (ground arith)
  loop_bounds (suc left) attempt request last w n h =
      step_bounds (suc left) attempt request last w n h λ response w' again.
        rw (keeps_count attempt w' (n + 1)) (
          later
            (counted_loop (suc left) (attempt + 1) request response
              (sleep_backoff inner sleep_up_to config attempt w', n + 1))
            (loop_bounds left (attempt + 1) request response
              (sleep_backoff inner sleep_up_to config attempt w') (n + 1) (omega arith)))
    where
      later :
          (p : Result HttpResponse × (W × ℕ))
          → Bounded (suc left) (n + 1) p
          → Bounded (suc (suc left)) n p
      later p (some_call, most, final) =
          (omega arith, omega arith, λ r same retry. omega (arith, final r same retry))

  all_rounds :
      (limit : ℕ) (request : HttpRequest) (w : W) (n : ℕ)
      → 0 < limit
      → limit ≡ config.max_attempts
      → Bounded limit n (counted_loop limit 0 request no_response (w, n))
  all_rounds zero request w n h e = absurd (omega arith)
  all_rounds (suc left) request w n h e = loop_bounds left 0 request no_response w n (omega arith)

  -- With at least one attempt configured, a call of the retrying client makes at least one call of
  -- the client inside it and at most `max_attempts`, whatever that client does, and it returns a
  -- response that may be retried only if it made all of them.
  pub execute_bounds :
      (request : HttpRequest) (w : W) (n : ℕ)
      → 0 < config.max_attempts
      → Bounded config.max_attempts n
          (execute (counted inner) (on_world sleep_up_to) config request (w, n))
  unfolding execute
  execute_bounds request w n h = all_rounds config.max_attempts request w n h refl
