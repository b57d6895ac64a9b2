-- ===== src/Catalog/Load/Tables.antt =====
-- The tables behind a list of calendars.
use duckdb_google_calendar.Common.{
  List, [], ◌∷◌, true, false, Bytes, none, some, bytes_eq, if◌then◌else◌, ◌≡◌, ◌≢◌, refl, ◌∙◌, ◌⊎◌,
  arith, Bool-cases, inl, inr, sym, some-injective,
}
use duckdb_google_calendar.Resources.CalendarList.{CalendarListEntry}
use duckdb_google_calendar.Catalog.{same_key, find_table, add_table, mark_created}
use duckdb_google_calendar.Catalog.Load.{Aliases, Loaded, invert, add_names, load_entries}
use duckdb_google_calendar.Catalog.Load.Names.{names_of, table_names-invert}

module _ (fold : Bytes → Bytes) where
  -- Up to the case.
  abbrev pub Among : Bytes → List Bytes → Type 0
  Among name [] = ⊥
  Among name (n ∷ names) = (fold name ≡ fold n) ⊎ Among name names

  -- The specification: a table of this name and this id is wanted for one of the calendars.
  abbrev pub Wanted : Aliases → Bytes → Bytes → List CalendarListEntry → Type 0
  Wanted aliases name id [] = ⊥
  Wanted aliases name id (cal ∷ cals) =
      ((id ≡ cal.id) × Among name (names_of fold cal.id aliases)) ⊎ Wanted aliases name id cals

  pub key_path : (a b : Bytes) → same_key fold a b ≡ true → fold a ≡ fold b
  key_path a b h = (bytes_eq.beq_iff (fold a) (fold b)).0 h

  pub path_key : (a b : Bytes) → fold a ≡ fold b → same_key fold a b ≡ true
  path_key a b h = (bytes_eq.beq_iff (fold a) (fold b)).1 h

  pub differ : (a b : Bytes) → same_key fold a b ≡ false → fold a ≡ fold b → ⊥
  differ a b no_key p = ground (arith, path_key a b p)

  apart :
      (name n m : Bytes)
      → same_key fold name m ≡ true
      → same_key fold n m ≡ false
      → same_key fold name n ≡ false
  apart name n m yes_m other = elim (Bool-cases (same_key fold name n)) [
    | inr no_n ↦ no_n
    | inl yes_n ↦ absurd (differ n m other (sym (key_path name n yes_n) ∙ key_path name m yes_m))
  ]

  find-add :
      (name n id : Bytes) (tables : List (Bytes × Bytes))
      → find_table fold name (add_table fold n id tables)
        ≡ (if same_key fold name n then some id else find_table fold name tables)
  unfolding find_table add_table
  find-add name n id [] = refl
  find-add name n id ((m, i) ∷ tables) = elim (Bool-cases (same_key fold n m)) [
    | inl here ↦ elim (Bool-cases (same_key fold name m)) [
      | inl yes_m ↦
          let yes_n : same_key fold name n ≡ true = rw (key_path n m here) yes_m in
          rw (here, yes_m, yes_n, add_table, find_table) refl
      | inr no_m ↦
          let no_n : same_key fold name n ≡ false = rw (key_path n m here) no_m in
          rw (here, no_m, no_n, add_table, find_table) refl
    ]
    | inr other ↦ elim (Bool-cases (same_key fold name m)) [
      | inl yes_m ↦
          let no_n : same_key fold name n ≡ false = apart name n m yes_m other in
          rw (other, yes_m, no_n, add_table, find_table) refl
      | inr no_m ↦ rw (other, no_m, add_table, find_table) (find-add name n id tables)
    ]
  ]

  -- Whether a table is found, and of which calendar it is, behind the names of one calendar.
  find-add_names :
      (name id : Bytes) (names : List Bytes) (tables : List (Bytes × Bytes))
      → (Among name names × (find_table fold name (add_names fold id names tables) ≡ some id))
        ⊎ ((Among name names → ⊥)
            × (find_table fold name (add_names fold id names tables) ≡ find_table fold name tables))
  unfolding add_names
  find-add_names name id [] tables = inr (λ h. h, refl)
  find-add_names name id (n ∷ names) tables =
      elim (find-add_names name id names (add_table fold n id tables)) [
        | inl (among, found) ↦ inl (inr among, found)
        | inr (not_among, same) ↦ elim (Bool-cases (same_key fold name n)) [
          | inl yes_n ↦
              inl (inl (key_path name n yes_n), same ∙ find-add name n id tables ∙ rw yes_n refl)
          | inr no_n ↦ inr (
            λ h. elim h [ inl p ↦ differ name n no_n p | inr later ↦ not_among later ],
            same ∙ find-add name n id tables ∙ rw no_n refl,
          )
        ]
      ]

  module _ (aliases : Aliases) where
    abbrev pub loaded : List CalendarListEntry → Loaded → Loaded
    loaded = load_entries fold (invert fold aliases [])

    pub load_step :
        (cal : CalendarListEntry) (cals : List CalendarListEntry) (tables : List (Bytes × Bytes))
        (seen : List Bytes)
        → loaded (cal ∷ cals) (tables, seen)
          ≡ loaded cals (
            add_names fold cal.id (names_of fold cal.id aliases) tables,
            mark_created fold cal.id seen,
          )
    unfolding load_entries
    load_step cal cals tables seen = rw (table_names-invert fold cal.id aliases) refl

    -- A table that is found is wanted.
    pub load_sound :
        (name id : Bytes) (cals : List CalendarListEntry) (tables : List (Bytes × Bytes))
        (seen : List Bytes)
        → find_table fold name (loaded cals (tables, seen)).0 ≡ some id
        → (find_table fold name tables ≡ some id) ⊎ Wanted aliases name id cals
    unfolding load_entries
    load_sound name id [] tables seen h = inl h
    load_sound name id (cal ∷ cals) tables seen h =
        elim (load_sound name id cals (add_names fold cal.id (names_of fold cal.id aliases) tables)
          (mark_created fold cal.id seen) (rw (load_step cal cals tables seen) at h)) [
            | inr later ↦ inr (inr later)
            | inl found ↦ elim (find-add_names name cal.id (names_of fold cal.id aliases) tables) [
              | inl (among, new) ↦ inr (inl (some-injective _ _ (sym found ∙ new), among))
              | inr (_, same) ↦ inl (sym same ∙ found)
            ]
          ]

    -- What is found or wanted stays so behind one calendar.
    kept :
        (name id : Bytes) (cal : CalendarListEntry) (cals : List CalendarListEntry)
        (tables : List (Bytes × Bytes))
        → (find_table fold name tables ≢ none) ⊎ Wanted aliases name id (cal ∷ cals)
        → (let after =
              find_table fold name (add_names fold cal.id (names_of fold cal.id aliases) tables) in
            (Among name (names_of fold cal.id aliases) × (after ≡ some cal.id))
            ⊎ ((Among name (names_of fold cal.id aliases) → ⊥)
                × (after ≡ find_table fold name tables)))
        → (find_table fold name (add_names fold cal.id (names_of fold cal.id aliases) tables)
            ≢ none)
          ⊎ Wanted aliases name id cals
    kept name id cal cals tables h (inl (among, found)) = inl (λ e. absurd cc)
    kept name id cal cals tables (inl h) (inr (other, same)) = inl (rw same h)
    kept name id cal cals tables (inr (inl (_, among))) (inr (other, same)) = absurd (other among)
    kept name id cal cals tables (inr (inr later)) (inr (other, same)) = inr later

    -- A wanted name is found.
    pub load_complete :
        (name id : Bytes) (cals : List CalendarListEntry) (tables : List (Bytes × Bytes))
        (seen : List Bytes)
        → (find_table fold name tables ≢ none) ⊎ Wanted aliases name id cals
        → find_table fold name (loaded cals (tables, seen)).0 ≢ none
    unfolding load_entries
    load_complete name id [] tables seen (inl h) = h
    load_complete name id [] tables seen (inr h) = absurd h
    load_complete name id (cal ∷ cals) tables seen h = rw (load_step cal cals tables seen) (
        load_complete name id cals (add_names fold cal.id (names_of fold cal.id aliases) tables)
          (mark_created fold cal.id seen)
          (kept name id cal cals tables h
            (find-add_names name cal.id (names_of fold cal.id aliases) tables)))
