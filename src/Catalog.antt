-- ===== src/Catalog.antt =====
-- The tables of a catalog, the calendars that the session made, and the statements that change them
-- (src/storage/calendar_catalog.cpp, calendar_schema_entry.cpp).
pub mod Drop
pub mod Attach
pub mod Load
pub mod Refuse
pub mod Mount
pub mod Open
pub mod TableEntry
pub mod Transaction
pub mod Schema
use duckdb_google_calendar.Common.{
  List, [], ◌∷◌, Bool, true, false, not, ◌||◌, Bytes, Option, none, some, ◌==◌, bytes_eq,
  if◌then◌else◌,
}
use duckdb_google_calendar.Common.Except.{
  Exec, Result, ok, throw, catalog, invalid_input, not_implemented, pure, raise, lift, ◌>>=◌, ◌>>◌,
}
use duckdb_google_calendar.Json.{JsonLib}
use duckdb_google_calendar.Resources.Base.{Client}
use duckdb_google_calendar.Catalog.Schema.{ColumnType, validate_events_columns}
use duckdb_google_calendar.Resources.Calendars.{insert_calendar, delete_calendar}

-- A table is its name with the id of its calendar.
pub record CatalogState : Type 0 where
  pub tables : List (Bytes × Bytes)
  pub created_calendar_ids : List Bytes

-- `fold` is the engine's folding of case, by which its case-insensitive maps and sets compare.
module _ (fold : Bytes → Bytes) where
  abbrev pub same_key : Bytes → Bytes → Bool
  same_key a b = fold a == fold b

  unfoldable pub find_table : Bytes → List (Bytes × Bytes) → Option Bytes
  find_table name [] = none
  find_table name ((n, id) ∷ tables) = if same_key name n then some id else find_table name tables

  -- `LookupEntry` and `Scan`, which know tables only.
  unfoldable pub lookup_entry : Bool → Bytes → CatalogState → Option Bytes
  unfolding find_table
  lookup_entry is_table name state = if not is_table then none else find_table name state.tables

  unfoldable pub scan_entries : Bool → CatalogState → List (Bytes × Bytes)
  scan_entries is_table state = if not is_table then [] else state.tables

  -- `tables[name] = …`
  unfoldable pub add_table : Bytes → Bytes → List (Bytes × Bytes) → List (Bytes × Bytes)
  add_table name id [] = (name, id) ∷ []
  add_table name id ((n, i) ∷ tables) =
      if same_key name n then (n, id) ∷ tables else (n, i) ∷ add_table name id tables

  unfoldable pub erase_table : Bytes → List (Bytes × Bytes) → List (Bytes × Bytes)
  erase_table name [] = []
  erase_table name ((n, i) ∷ tables) =
      if same_key name n then tables else (n, i) ∷ erase_table name tables

  unfoldable pub was_created : Bytes → List Bytes → Bool
  was_created id [] = false
  was_created id (c ∷ created) = let rest = was_created id created in same_key id c || rest

  unfoldable pub mark_created : Bytes → List Bytes → List Bytes
  mark_created id created = if was_created id created then created else id ∷ created

  unfoldable pub forget_created : Bytes → List Bytes → List Bytes
  forget_created id [] = []
  forget_created id (c ∷ created) =
      let rest = forget_created id created in if same_key id c then rest else c ∷ rest

  module _ (J : JsonLib) {W : Type 0} (client : Client W) where
    -- `PlanCreateTableAs` up to the plan of the insertion.
    unfoldable pub create_table_as :
        List (Bytes × ColumnType) → Bytes → CatalogState → Exec W (CatalogState × Bytes)
    create_table_as columns name state = do
      _ ← lift (validate_events_columns fold columns)
      id ← insert_calendar J client name
      pure (
        record {
          tables = add_table name id state.tables;
          created_calendar_ids = mark_created id state.created_calendar_ids;
        },
        id,
      )

    -- `DropEntry`; the client is the one of the transaction.
    unfoldable pub drop_entry : Bool → Bool → Bytes → CatalogState → Exec W CatalogState
    drop_entry is_table if_exists name state =
        if not is_table
        then raise (not_implemented "google_calendar catalog supports DROP TABLE only")
        else elim (find_table name state.tables) [
          | none ↦
              if if_exists
              then pure state
              else raise (catalog "Table \"%s\" not found in google_calendar catalog" (name ∷ []))
          | some calendar_id ↦
              if not (was_created calendar_id state.created_calendar_ids)
              then raise (
                  invalid_input
                    "google_calendar: refusing to DROP \"%s\": only calendars created in this session with CREATE TABLE ... AS can be dropped (this protects pre-existing calendars from deletion)"
                    (name ∷ []))
              else delete_calendar J client calendar_id >>= (λ _. pure (record {
                tables = erase_table name state.tables;
                created_calendar_ids = forget_created calendar_id state.created_calendar_ids;
              }))
        ]
