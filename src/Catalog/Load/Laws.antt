-- ===== src/Catalog/Load/Laws.antt =====
-- Which tables ATTACH mounts.
use duckdb_google_calendar.Common.{
  ℕ, zero, suc, ◌<◌, List, [], ◌∷◌, ◌++◌, true, false, Bytes, is_empty, none, some, bytes_eq, ◌≡◌,
  ◌≢◌, refl, ◌⊎◌, arith, inl, inr, length,
}
use duckdb_google_calendar.Common.Except.{ok, throw, invalid_input, continue}
use duckdb_google_calendar.Json.{JsonLib}
use duckdb_google_calendar.Resources.Base.{Client}
use duckdb_google_calendar.Resources.CalendarList.{
  CalendarListEntry, CalendarListResponse, list_calendars,
}
use duckdb_google_calendar.Catalog.{find_table}
use duckdb_google_calendar.Catalog.Load.{
  Aliases, Loaded, invert, load_entries, load_pages, load_catalog,
}
use duckdb_google_calendar.Catalog.Load.Tables.{Wanted, loaded, load_sound, load_complete}
use duckdb_google_calendar.Catalog.Load.Seen.{Listed, Known, Target, check_cases}

module _ (fold : Bytes → Bytes) where
  module _ (aliases : Aliases) where
    loaded-append :
        (xs ys : List CalendarListEntry) (state : Loaded)
        → loaded fold aliases (xs ++ ys) state
          ≡ loaded fold aliases ys (loaded fold aliases xs state)
    unfolding load_entries
    loaded-append [] ys state = refl
    loaded-append (x ∷ xs) ys (tables, seen) = loaded-append xs ys _

    abbrev pub all_cals :
        List CalendarListEntry → List (List CalendarListEntry) → List CalendarListEntry
    all_cals page [] = page
    all_cals page (next ∷ pages) = page ++ all_cals next pages

    module _ (J : JsonLib) {W : Type 0} (client : Client W) where
      abbrev response : List CalendarListEntry → Bytes → CalendarListResponse
      response page token = record { items = page; next_page_token = token }

      -- The server answers with these pages, from a token on, and the world changes so.
      abbrev pub Answers :
          List CalendarListEntry → List (List CalendarListEntry) → Bytes → W → W → Type 0
      Answers page [] token w w' =
          (last : Bytes) × (is_empty last ≡ true)
          × (list_calendars J client token w ≡ (ok (response page last), w'))
      Answers page (next ∷ pages) token w w' =
          (more : Bytes) × (w1 : W) × (is_empty more ≡ false)
          × (list_calendars J client token w ≡ (ok (response page more), w1))
          × Answers next pages more w1 w'

      load_pages_lem :
          (fuel : ℕ) (page : List CalendarListEntry) (pages : List (List CalendarListEntry))
          (token : Bytes) (state : Loaded) (w w' : W)
          → Answers page pages token w w'
          → length pages < fuel
          → load_pages fold J client fuel (invert fold aliases []) token state w
            ≡ (ok (some (loaded fold aliases (all_cals page pages) state)), w')
      unfolding load_pages
      load_pages_lem zero page pages token state w w' answers enough = absurd (omega arith)
      load_pages_lem (suc fuel) page [] token state w w' (last, done, got) enough =
          rw (got, done, load_pages, continue) refl
      load_pages_lem (suc fuel) page (next ∷ pages) token state w w' (more, w1, on, got, answers)
            enough =
          rw
            (
              got,
              on,
              load_pages,
              continue,
              load_pages_lem fuel next pages more (loaded fold aliases page state) w1 w' answers
                  (omega arith),
              loaded-append page (all_cals next pages) state,
            )
            refl

      abbrev pub Mounts : List (Bytes × Bytes) → List CalendarListEntry → Type 0
      Mounts tables cals =
          ((name id : Bytes)
            → find_table fold name tables ≡ some id
            → Wanted fold aliases name id cals)
          × ((name id : Bytes)
              → Wanted fold aliases name id cals
              → find_table fold name tables ≢ none)

      mounted : (cals : List CalendarListEntry) → Mounts (loaded fold aliases cals ([], [])).0 cals
      unfolding find_table
      mounted cals = (
        λ name id h. elim (load_sound fold aliases name id cals [] [] h) [
          | inl nowhere ↦ absurd cc
          | inr wanted ↦ wanted
        ],
        λ name id wanted. load_complete fold aliases name id cals [] [] (inr wanted),
      )

      -- If the server lists the calendars in a finite chain of pages, ATTACH comes to an end, with
      -- as much fuel as there are pages. Either every alias is of a listed calendar, and then the
      -- tables are those that are wanted, the case aside: each table is of a listed calendar and
      -- has the name of one of its aliases, or its id if it has no alias, and there is a table for
      -- every such name. Or ATTACH throws, for an alias whose id is that of no listed calendar.
      pub load_catalog-Mounts :
          (fuel : ℕ) (page : List CalendarListEntry) (pages : List (List CalendarListEntry))
          (w w' : W)
          → Answers page pages [] w w'
          → length pages < fuel
          → (Known fold aliases (all_cals page pages)
              × ((tables : List (Bytes × Bytes)) × (load_catalog fold J client fuel aliases w
                    ≡ (ok (some tables), w'))
                  × Mounts tables (all_cals page pages)))
            ⊎ ((id : Bytes) × Target id aliases
                × (Listed fold id (all_cals page pages) → ⊥)
                × (load_catalog fold J client fuel aliases w ≡ (
                  throw (
                      invalid_input "calendar_aliases refers to unknown calendar ID \"%s\""
                        (id ∷ [])),
                  w',
                )))
      unfolding load_catalog
      load_catalog-Mounts fuel page pages w w' answers enough =
          rw
            (load_catalog, continue, load_pages_lem fuel page pages [] ([], []) w w' answers enough)
            (elim (check_cases fold aliases aliases (all_cals page pages) []) [
              | inl (known, fine) ↦ rw fine (
                  inl (
                    known,
                    (
                      (loaded fold aliases (all_cals page pages) ([], [])).0,
                      refl,
                      mounted (all_cals page pages),
                    ),
                  ))
              | inr (id, target, unlisted, threw) ↦ rw threw (inr (id, target, unlisted, refl))
            ])
