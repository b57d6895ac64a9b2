-- ===== src/Catalog/Transaction.antt =====
-- src/storage/calendar_transaction.cpp and calendar_transaction_manager.cpp: a transaction makes its
-- client at the first use. Here a call of `GetClient` is one step; Threads has the lock.
pub mod Threads
use duckdb_google_calendar.Common.{
  ℕ, List, [], ◌∷◌, ◌++◌, Option, none, some, ◌==◌, nat_eq, if◌then◌else◌, ◌≡◌, refl, inl, inr, map,
  All, subst, sym,
}
use duckdb_google_calendar.Common.Except.{Exec, Result, ok, throw, outcome_cases}
use duckdb_google_calendar.Resources.Base.{Client}

-- A transaction is known by its address.
pub record CalendarTransaction (W : Type 0) : Type 0 where
  pub address : ℕ
  pub client : Option (Client W)

-- The transactions of a manager.
abbrev pub Transactions : Type 0 → Type 0
Transactions W = List (CalendarTransaction W)

module _ {W : Type 0} where
  -- `StartTransaction`, with the address of the new object.
  unfoldable pub start_transaction : ℕ → Transactions W → Transactions W
  start_transaction address transactions =
      transactions ++ (record { address = address; client = none } ∷ [])

  -- `CommitTransaction`: the first that is the given one is erased.
  unfoldable pub commit_transaction : ℕ → Transactions W → Transactions W
  commit_transaction address [] = []
  commit_transaction address (t ∷ transactions) =
      let rest = commit_transaction address transactions in
      if t.address == address then transactions else t ∷ rest

  -- `RollbackTransaction` does the same.
  unfoldable pub rollback_transaction : ℕ → Transactions W → Transactions W
  unfolding commit_transaction
  rollback_transaction = commit_transaction

  -- `make` is the making of a client, which may throw; then the next call tries again.
  module _ (make : Exec W (Client W)) where
    unfoldable pub get_client : Exec (CalendarTransaction W × W) (Client W)
    get_client (t, w) = elim t.client [
      | some c ↦ (ok c, (t, w))
      | none ↦ elim (make w).0 [
        | ok c ↦ (ok c, (record t { client = some c }, (make w).1))
        | throw e ↦ (throw e, (t, (make w).1))
      ]
    ]
