-- ===== src/Catalog/Transaction/Threads.antt =====
-- `GetClient` of src/storage/calendar_transaction.cpp as threads run it, with its lock: a thread may
-- be interrupted before and behind the lock, the test, and the making of the client.
pub mod OneClient
pub mod Progress
pub mod Laws
use duckdb_google_calendar.Common.{
  ℕ, List, [], ◌∷◌, Bool, true, false, beq_refl, Option, none, some, some-injective, Option-cases,
  subst, ◌==◌, nat_eq, if◌then◌else◌, ◌≡◌, refl, sym, ◌∙◌, inl, inr, Bool-cases,
}
use duckdb_google_calendar.Common.Except.{Exception, Exec, ok, throw, outcome_cases}
use duckdb_google_calendar.Resources.Base.{Client}

-- Where a thread is in its call: before the lock, before the test, before the making, or behind the
-- call.
pub data CallState (W : Type 0) : Type 0 where
  waiting entered making : CallState W
  returned : Client W → CallState W
  threw : Exception → CallState W

-- The transaction, the world, and the calls of the threads.
pub record SharedTransaction (W : Type 0) : Type 0 where
  pub client_lock : Option ℕ
  pub client : Option (Client W)
  pub world : W
  pub calls : ℕ → CallState W

-- A thread goes on, or the others change the world.
pub data Turn (W : Type 0) : Type 0 where
  thread : ℕ → Turn W
  others : (W → W) → Turn W

module _ {W : Type 0} where
  abbrev pub set_call : ℕ → CallState W → (ℕ → CallState W) → ℕ → CallState W
  set_call i call calls j = if j == i then call else calls j

  -- The end of the call frees the lock.
  abbrev pub leave : ℕ → CallState W → SharedTransaction W → SharedTransaction W
  leave i call s = record s { client_lock = none; calls = set_call i call s.calls }

  module _ (make : Exec W (Client W)) where
    unfoldable pub enter : ℕ → SharedTransaction W → SharedTransaction W
    enter i s = elim s.client_lock [
      | some holder ↦ s
      | none ↦ record s { client_lock = some i; calls = set_call i entered s.calls }
    ]

    -- `if (!client)`
    unfoldable pub test_client : ℕ → SharedTransaction W → SharedTransaction W
    test_client i s = elim s.client [
      | some c ↦ leave i (returned c) s
      | none ↦ record s { calls = set_call i making s.calls }
    ]

    unfoldable pub make_client : ℕ → SharedTransaction W → SharedTransaction W
    make_client i s = elim (make s.world).0 [
      | ok c ↦ leave i (returned c) (record s { client = some c; world = (make s.world).1 })
      | throw e ↦ leave i (threw e) (record s { world = (make s.world).1 })
    ]

    abbrev pub go_on : ℕ → CallState W → SharedTransaction W → SharedTransaction W
    go_on i waiting s = enter i s
    go_on i entered s = test_client i s
    go_on i making s = make_client i s
    go_on i (returned c) s = s
    go_on i (threw e) s = s

    abbrev pub take_turn : Turn W → SharedTransaction W → SharedTransaction W
    take_turn (thread i) s = go_on i (s.calls i) s
    take_turn (others change) s = record s { world = change s.world }

    unfoldable pub run_turns : List (Turn W) → SharedTransaction W → SharedTransaction W
    run_turns [] s = s
    run_turns (turn ∷ turns) s = run_turns turns (take_turn turn s)

  -- Nobody has called yet.
  abbrev pub no_calls : W → SharedTransaction W
  no_calls w = record { client_lock = none; client = none; world = w; calls = λ i. waiting }
