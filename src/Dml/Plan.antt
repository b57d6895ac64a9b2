-- ===== src/Dml/Plan.antt =====
-- The operators that statements are planned with: `PlanCreateTableAs`, `PlanInsert`, `PlanDelete`,
-- `PlanUpdate` and `PlanMergeInto` of src/storage/calendar_catalog.cpp.
use mathlib.Core.Option
use duckdb_google_calendar.Common.{ℕ, List, [], ◌∷◌, Bool, false, Bytes, Option, some, map}
use duckdb_google_calendar.Common.Except.{Exec, pure, ◌>>=◌}
use duckdb_google_calendar.Json.{JsonLib}
use duckdb_google_calendar.Resources.Base.{Client}
use duckdb_google_calendar.Catalog.{CatalogState, create_table_as}
use duckdb_google_calendar.Catalog.Schema.{ColumnType}
use duckdb_google_calendar.Dml.Merge.{
  BoundMergeIntoAction, LogicalMergeInto, MergeIntoOperator, CalendarOperator, calendar_insert,
  calendar_update, calendar_delete, plan_calendar_merge_into_action,
}

-- `P` is the engine's plans, `E` its expressions, `T` its types and `C` the conditions of MERGE.
module _ (P E T C : Type 0) where
  -- An operator with its child.
  abbrev pub Planned : Type 0
  Planned = CalendarOperator E T × P

  -- `resolve_defaults` is the engine's projection for an INSERT with a list of columns.
  unfoldable pub plan_insert : (P → P) → List T → List ℕ → Bool → P → Planned
  plan_insert resolve_defaults types [] return_chunk plan =
      (calendar_insert types return_chunk, plan)
  plan_insert resolve_defaults types (i ∷ column_index_map) return_chunk plan =
      (calendar_insert types return_chunk, resolve_defaults plan)

  -- The calendar is made while the statement is planned; its id goes with the operator.
  unfoldable pub plan_create_table_as :
      (Bytes → Bytes)
      → JsonLib
      → {W : Type 0} → Client W
      → List T
      → List (Bytes × ColumnType)
      → Bytes
      → P
      → CatalogState
      → Exec W (CatalogState × (Bytes × Planned))
  plan_create_table_as fold J client types columns name plan state =
      create_table_as fold J client columns name state
      >>= (λ (state', id). pure (state', (id, (calendar_insert types false, plan))))

  -- The first of the expressions is the reference to the row id.
  unfoldable pub plan_delete : List T → ℕ → Bool → P → Planned
  plan_delete types row_id_index return_chunk plan =
      (calendar_delete types row_id_index return_chunk, plan)

  unfoldable pub plan_update :
      (Option E → ℕ) → List T → List ℕ → List (Option E) → Bool → P → Planned
  plan_update index types columns expressions return_chunk plan =
      (calendar_update types columns (map index expressions) return_chunk, plan)

  -- All actions of one condition; `none` is an InternalException.
  unfoldable pub plan_actions :
      (Option E → ℕ)
      → LogicalMergeInto E T
      → List (BoundMergeIntoAction E T)
      → Option (List (MergeIntoOperator E T))
  plan_actions index op [] = some []
  plan_actions index op (action ∷ actions) =
      Option.bind (plan_calendar_merge_into_action index op action)
        (λ planned. Option.map (λ rest. planned ∷ rest) (plan_actions index op actions))

  unfoldable pub plan_entries :
      (Option E → ℕ)
      → LogicalMergeInto E T
      → List (C × List (BoundMergeIntoAction E T))
      → Option (List (C × List (MergeIntoOperator E T)))
  unfolding plan_actions
  plan_entries index op [] = some []
  plan_entries index op ((condition, actions) ∷ entries) =
      Option.bind (plan_actions index op actions) (λ planned.
        Option.map (λ rest. (condition, planned) ∷ rest) (plan_entries index op entries))

  -- `M` is the engine's marks of the source.
  module _ (M : Type 0) where
    -- The engine's operator with its child.
    pub record PhysicalMergeInto : Type 0 where
      pub types : List T
      pub actions : List (C × List (MergeIntoOperator E T))
      pub row_id_start : ℕ
      pub source_marker : M
      pub parallel : Bool
      pub return_chunk : Bool
      pub child : P

    unfoldable pub plan_merge_into :
        (Option E → ℕ)
        → LogicalMergeInto E T
        → List (C × List (BoundMergeIntoAction E T))
        → M
        → P
        → Option PhysicalMergeInto
    unfolding plan_entries
    plan_merge_into index op entries source_marker plan =
        Option.map
          (λ actions. record {
            types = op.types;
            actions = actions;
            row_id_start = op.row_id_start;
            source_marker = source_marker;
            parallel = false;
            return_chunk = op.return_chunk;
            child = plan;
          })
          (plan_entries index op entries)
