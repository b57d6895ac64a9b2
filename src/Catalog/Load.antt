-- ===== src/Catalog/Load.antt =====
-- The tables that ATTACH mounts: `CalendarCatalog::LoadCatalog` of src/storage/calendar_catalog.cpp,
-- and the aliases that `CalendarAttach` of src/storage/calendar_storage_extension.cpp reads.
pub mod Names
pub mod Tables
pub mod Seen
pub mod Laws
use duckdb_google_calendar.Common.{
  ℕ, zero, suc, List, [], ◌∷◌, ◌++◌, Bool, true, false, not, Bytes, is_empty, Option, none, some,
  if◌then◌else◌,
}
use duckdb_google_calendar.Common.Except.{
  Exec, Result, ok, throw, binder, invalid_input, pure, raise, lift, ◌>>=◌,
}
use duckdb_google_calendar.Json.{JsonLib}
use duckdb_google_calendar.Resources.Base.{Client}
use duckdb_google_calendar.Resources.CalendarList.{
  CalendarListEntry, CalendarListResponse, list_calendars,
}
use duckdb_google_calendar.Catalog.{same_key, add_table, mark_created, was_created}

-- Pairs of an alias and the id of its calendar.
abbrev pub Aliases : Type 0
Aliases = List (Bytes × Bytes)

-- The tables, and the ids that were seen.
abbrev pub Loaded : Type 0
Loaded = List (Bytes × Bytes) × List Bytes

module _ (fold : Bytes → Bytes) where
  -- The entries of the MAP; one whose id is NULL is passed over with a warning. `none` is a value
  -- that is no MAP of VARCHAR to VARCHAR.
  unfoldable pub read_entries : List (Bytes × Option Bytes) → Aliases → Aliases
  read_entries [] aliases = aliases
  read_entries ((alias, none) ∷ entries) aliases = read_entries entries aliases
  read_entries ((alias, some id) ∷ entries) aliases =
      read_entries entries (add_table fold alias id aliases)

  unfoldable pub read_aliases : Option (List (Bytes × Option Bytes)) → Result Aliases
  read_aliases none =
      throw (binder "calendar_aliases must be a MAP(VARCHAR, VARCHAR) of alias -> calendar ID" [])
  read_aliases (some entries) = ok (read_entries entries [])

  -- `aliases_by_id[id].push_back(alias)`
  unfoldable pub push_alias : Bytes → Bytes → List (Bytes × List Bytes) → List (Bytes × List Bytes)
  push_alias id alias [] = (id, alias ∷ []) ∷ []
  push_alias id alias ((i, names) ∷ by_id) =
      let rest = push_alias id alias by_id in
      if same_key fold id i then (i, names ++ (alias ∷ [])) ∷ by_id else (i, names) ∷ rest

  unfoldable pub invert : Aliases → List (Bytes × List Bytes) → List (Bytes × List Bytes)
  unfolding push_alias
  invert [] by_id = by_id
  invert ((alias, id) ∷ aliases) by_id = invert aliases (push_alias id alias by_id)

  unfoldable pub find_names : Bytes → List (Bytes × List Bytes) → Option (List Bytes)
  find_names id [] = none
  find_names id ((i, names) ∷ by_id) =
      let rest = find_names id by_id in if same_key fold id i then some names else rest

  -- The names of the tables of a calendar.
  unfoldable pub table_names : List (Bytes × List Bytes) → Bytes → List Bytes
  table_names by_id id = elim (find_names id by_id) [ none ↦ id ∷ [] | some names ↦ names ]

  unfoldable pub add_names : Bytes → List Bytes → List (Bytes × Bytes) → List (Bytes × Bytes)
  add_names id [] tables = tables
  add_names id (name ∷ names) tables = add_names id names (add_table fold name id tables)

  unfoldable pub load_entries : List (Bytes × List Bytes) → List CalendarListEntry → Loaded → Loaded
  load_entries by_id [] loaded = loaded
  load_entries by_id (cal ∷ cals) (tables, seen) =
      load_entries by_id cals
        (add_names cal.id (table_names by_id cal.id) tables, mark_created fold cal.id seen)

  -- Every alias must be of an id that was seen.
  unfoldable pub check_aliases : Aliases → List Bytes → Result (Unit {0})
  check_aliases [] seen = ok tt
  check_aliases ((alias, id) ∷ aliases) seen =
      let rest = check_aliases aliases seen in
      if not (was_created fold id seen)
      then throw (invalid_input "calendar_aliases refers to unknown calendar ID \"%s\"" (id ∷ []))
      else rest

  module _ (J : JsonLib) {W : Type 0} (client : Client W) where
    -- The loop over the pages; `none` where the fuel is not enough.
    unfoldable pub load_pages :
        ℕ → List (Bytes × List Bytes) → Bytes → Loaded → Exec W (Option Loaded)
    load_pages zero by_id page_token loaded = pure none
    load_pages (suc fuel) by_id page_token loaded =
        list_calendars J client page_token >>= (λ response.
          let next =
            load_pages fuel by_id response.next_page_token
              (load_entries by_id response.items loaded) in
          if is_empty response.next_page_token
          then pure (some (load_entries by_id response.items loaded))
          else next)

    abbrev checked : Aliases → Option Loaded → Exec W (Option (List (Bytes × Bytes)))
    checked aliases none = pure none
    checked aliases (some (tables, seen)) =
        lift (check_aliases aliases seen) >>= (λ _. pure (some tables))

    -- `LoadCatalog` from the client on, for a catalog without tables.
    unfoldable pub load_catalog : ℕ → Aliases → Exec W (Option (List (Bytes × Bytes)))
    load_catalog fuel aliases = load_pages fuel (invert aliases []) [] ([], []) >>= checked aliases
