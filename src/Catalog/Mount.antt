-- ===== src/Catalog/Mount.antt =====
-- `CalendarAttach` of src/storage/calendar_storage_extension.cpp as a whole: the options, and then
-- the tables.
pub mod Laws
use duckdb_google_calendar.Common.{ℕ, List, [], Bytes, Option, none, some}
use duckdb_google_calendar.Common.Except.{Exec, Result, ok, pure, lift, ◌>>=◌}
use duckdb_google_calendar.Common.Int.{ℤ}
use duckdb_google_calendar.Json.{JsonLib}
use duckdb_google_calendar.Sql.{SqlLib}
use duckdb_google_calendar.Resources.Base.{Client}
use duckdb_google_calendar.Scan.Init.{Interval, DefaultWindow}
use duckdb_google_calendar.Catalog.{CatalogState}
use duckdb_google_calendar.Catalog.Attach.{attach_window}
use duckdb_google_calendar.Catalog.Load.{Aliases, read_aliases, load_catalog}

-- The options that are given, by their values; for `calendar_aliases` its entries, if it is a MAP of
-- VARCHAR to VARCHAR.
pub record AttachOptions (V : Type 0) : Type 0 where
  pub secret : Option Bytes
  pub calendar_aliases : Option (Option (List (Bytes × Option Bytes)))
  pub default_window_start : Option V
  pub default_window_end : Option V
  pub default_window_length : Option V

-- The catalog of an attached database: its path, and the name of its secret, which is empty if
-- there was none.
pub record CalendarCatalog : Type 0 where
  pub path : Bytes
  pub secret_name : Bytes
  pub aliases : Aliases
  pub window : DefaultWindow
  pub state : CatalogState

-- The name of the secret, if one is given.
abbrev pub attach_secret : Option Bytes → Bytes
attach_secret none = []
attach_secret (some name) = name

abbrev pub catalog_of :
    Bytes → Bytes → Aliases → DefaultWindow → Option (List (Bytes × Bytes)) → Option CalendarCatalog
catalog_of path secret_name aliases window none = none
catalog_of path secret_name aliases window (some tables) = some (record {
  path = path;
  secret_name = secret_name;
  aliases = aliases;
  window = window;
  state = record { tables = tables; created_calendar_ids = [] };
})

module _ (fold : Bytes → Bytes) (S : SqlLib) (cast_interval : S.Value → Option Interval)
    (add_interval : ℤ → Interval → Result ℤ) where
  unfoldable pub attach_aliases : Option (Option (List (Bytes × Option Bytes))) → Result Aliases
  attach_aliases none = ok []
  attach_aliases (some entries) = read_aliases fold entries

  -- The options of the default window.
  abbrev pub window_of : AttachOptions S.Value → Result DefaultWindow
  window_of options =
      attach_window S cast_interval add_interval options.default_window_start
        options.default_window_end options.default_window_length

  -- `make` makes the client of LoadCatalog from the name of the secret. `none` where the fuel is not
  -- enough.
  unfoldable pub calendar_attach :
      {W : Type 0}
      → JsonLib
      → (Bytes → Exec W (Client W))
      → ℕ
      → Bytes
      → AttachOptions S.Value
      → Exec W (Option CalendarCatalog)
  calendar_attach J make fuel path options = do
    aliases ← lift (attach_aliases options.calendar_aliases)
    window ← lift (window_of options)
    client ← make (attach_secret options.secret)
    loaded ← load_catalog fold J client fuel aliases
    pure (catalog_of path (attach_secret options.secret) aliases window loaded)
