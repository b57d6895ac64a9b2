-- ===== src/Catalog/Transaction/Threads/Laws.antt =====
-- What holds of the calls of GetClient in any order of their steps.
use duckdb_google_calendar.Common.{ℕ, List, nat_eq, refl}
use duckdb_google_calendar.Common.Except.{Exec}
use duckdb_google_calendar.Resources.Base.{Client}
use duckdb_google_calendar.Catalog.Transaction.Threads.{Turn, run_turns, no_calls}
use duckdb_google_calendar.Catalog.Transaction.Threads.OneClient.{Settles, settles, run-Kept}
use duckdb_google_calendar.Catalog.Transaction.Threads.Progress.{
  Completes, run-Guarded, each-Completes,
}

module _ {W : Type 0} (make : Exec W (Client W)) where
  -- In a new transaction, whatever the order in which threads go on with their calls of GetClient,
  -- from the lock to the test to the making of the client, and others change the world between any
  -- two of these steps: once a call of some thread has returned a client, it is the client of the
  -- transaction, and every call that returns one, by then or after any more steps, returns the
  -- same; and at every point, for each thread there are steps that bring its call to the end, so
  -- that no call is locked out.
  pub run_turns-OneClient :
      (turns : List (Turn W)) (w : W) (i : ℕ)
      → Settles make
          (run_turns make turns (no_calls w))
          ((run_turns make turns (no_calls w)).calls i)
        × Completes make i (run_turns make turns (no_calls w))
  run_turns-OneClient turns w i =
      let s = run_turns make turns (no_calls w) in
      let (h, _) = run-Kept make turns (no_calls w) (λ j. tt) in
      let g = run-Guarded make turns (no_calls w) (λ j e. absurd (cc e)) in
      (settles make s i (s.calls i) h (h i), each-Completes make i s (s.calls i) g refl)
