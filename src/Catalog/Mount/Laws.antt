-- ===== src/Catalog/Mount/Laws.antt =====
-- What ATTACH does before it calls the API, and what it leaves.
use duckdb_google_calendar.Common.{
  ℕ, List, [], Bool, Bytes, Option, none, some, ◌≡◌, refl, ◌⊎◌, inl, inr,
}
use duckdb_google_calendar.Common.Int.{ℤ}
use duckdb_google_calendar.Common.Except.{
  Result, Exec, Exception, ok, throw, Ensures, bind-Ensures_any, Result-cases,
}
use duckdb_google_calendar.Json.{JsonLib}
use duckdb_google_calendar.Sql.{SqlLib}
use duckdb_google_calendar.Resources.Base.{Client}
use duckdb_google_calendar.Scan.Init.{Interval, DefaultWindow}
use duckdb_google_calendar.Catalog.{CatalogState, drop_entry}
use duckdb_google_calendar.Catalog.Drop.{attached, drop_entry_safe}
use duckdb_google_calendar.Catalog.Load.{Aliases, load_catalog}
use duckdb_google_calendar.Catalog.Mount.{
  AttachOptions, CalendarCatalog, attach_aliases, catalog_of, attach_secret, window_of,
  calendar_attach,
}

module _ (fold : Bytes → Bytes) (S : SqlLib) (cast_interval : S.Value → Option Interval)
    (add_interval : ℤ → Interval → Result ℤ) (J : JsonLib) {W : Type 0}
    (make : Bytes → Exec W (Client W)) (fuel : ℕ) (path : Bytes)
    (options : AttachOptions S.Value) where
  -- The aliases are refused, or else the window.
  abbrev pub Refuses : Exception → Type 0
  Refuses e =
      (attach_aliases fold S cast_interval add_interval options.calendar_aliases ≡ throw e)
      ⊎ ((aliases : Aliases) × (attach_aliases fold S cast_interval add_interval
              options.calendar_aliases
            ≡ ok aliases)
          × (window_of fold S cast_interval add_interval options ≡ throw e))

  -- A DROP of any table, by any client and in any world, changes nothing there.
  abbrev pub IsQuiet : CatalogState → Type 0
  IsQuiet state =
      (client : Client W) (is_table if_exists : Bool) (name : Bytes) (w : W)
      → (drop_entry fold J client is_table if_exists name state w).1 ≡ w

  abbrev pub IsMounted : Option CalendarCatalog → Type 0
  IsMounted none = Unit
  IsMounted (some cat) =
      (cat.path ≡ path)
      × (cat.secret_name ≡ attach_secret options.secret)
      × (attach_aliases fold S cast_interval add_interval options.calendar_aliases ≡ ok cat.aliases)
      × (window_of fold S cast_interval add_interval options ≡ ok cat.window)
      × IsQuiet cat.state

  new-IsQuiet :
      (tables : List (Bytes × Bytes))
      → IsQuiet (record { tables = tables; created_calendar_ids = [] })
  new-IsQuiet tables client is_table if_exists name w =
      elim (drop_entry_safe fold J client [] (record { tables = tables; created_calendar_ids = [] })
        is_table if_exists name w (attached tables)) [
          | inl same ↦ same
          | inr (id, here, among) ↦ absurd among
        ]

  mounted :
      (aliases : Aliases) (window : DefaultWindow)
      → attach_aliases fold S cast_interval add_interval options.calendar_aliases ≡ ok aliases
      → window_of fold S cast_interval add_interval options ≡ ok window
      → (w : W)
      → Ensures IsMounted
          (calendar_attach fold S cast_interval add_interval J make fuel path options w)
  unfolding calendar_attach
  mounted aliases window read bounded w =
      rw (read, bounded)
        (bind-Ensures_any IsMounted _ (make (attach_secret options.secret)) w λ client w1.
          bind-Ensures_any IsMounted _ (load_catalog fold J client fuel aliases) w1
            λ loaded w2. last loaded)
    where
      last :
          (loaded : Option (List (Bytes × Bytes)))
          → IsMounted (catalog_of path (attach_secret options.secret) aliases window loaded)
      last none = tt
      last (some tables) = (refl, refl, read, bounded, new-IsQuiet tables)

  refused :
      (e : Exception) (w : W)
      → Refuses e
      → calendar_attach fold S cast_interval add_interval J make fuel path options w ≡ (throw e, w)
  unfolding calendar_attach
  refused e w (inl bad) = rw bad
  refused e w (inr (aliases, fine, bad)) = rw (fine, bad)

  -- If ATTACH refuses its aliases, or takes them and refuses the options of the default window, it
  -- throws that and leaves the world as it is: no client is made. Where it gives a catalog, the
  -- catalog has the path, the name of the secret, the aliases and the window that the options say,
  -- and until something else is done in the session, a DROP of any table, by any client, leaves
  -- the world as it is.
  pub calendar_attach-IsMounted :
      (w : W)
      → ((e : Exception)
          → Refuses e
          → calendar_attach fold S cast_interval add_interval J make fuel path options w
            ≡ (throw e, w))
        × Ensures IsMounted
            (calendar_attach fold S cast_interval add_interval J make fuel path options w)
  calendar_attach-IsMounted w = (
    λ e h. refused e w h,
    elim (Result-cases
        (attach_aliases fold S cast_interval add_interval options.calendar_aliases)) [
          | inl (e, bad) ↦ rw (refused e w (inl bad)) tt
          | inr (aliases, read) ↦
              elim (Result-cases (window_of fold S cast_interval add_interval options)) [
                | inl (e, bad) ↦ rw (refused e w (inr (aliases, read, bad))) tt
                | inr (window, bounded) ↦ mounted aliases window read bounded w
              ]
        ],
  )
