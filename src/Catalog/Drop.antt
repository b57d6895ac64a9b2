-- ===== src/Catalog/Drop.antt =====
-- What a DROP can delete, over every session.
use duckdb_google_calendar.Common.{
  List, [], ◌∷◌, Bool, true, false, Bytes, some, bytes_eq, ◌≡◌, refl, ◌⊎◌, inl, inr, arith,
  Bool-cases, Option-cases, subst,
}
use duckdb_google_calendar.Common.Except.{Result, ok, Ensures, bind-Ensures_any, lift}
use duckdb_google_calendar.Json.{JsonLib}
use duckdb_google_calendar.Resources.Base.{Client}
use duckdb_google_calendar.Catalog.Schema.{ColumnType, validate_events_columns}
use duckdb_google_calendar.Resources.Calendars.{insert_calendar, delete_calendar}
use duckdb_google_calendar.Catalog.{
  CatalogState, same_key, find_table, was_created, mark_created, forget_created, create_table_as,
  drop_entry,
}

module _ (fold : Bytes → Bytes) (J : JsonLib) {W : Type 0} (client : Client W) where
  -- The states of a session, with the ids that the server gave to the calendars it made: from any
  -- tables, by statements that succeed. One that throws leaves the state as it is.
  pub data Reaches : List Bytes → CatalogState → Type 0 where
    attached :
        (tables : List (Bytes × Bytes))
        → Reaches [] (record { tables = tables; created_calendar_ids = [] })
    create_step :
        {made : List Bytes} {state : CatalogState} (columns : List (Bytes × ColumnType))
        (name : Bytes) (w w' : W) (state' : CatalogState) (id : Bytes)
        → Reaches made state
        → create_table_as fold J client columns name state w ≡ (ok (state', id), w')
        → Reaches (id ∷ made) state'
    drop_step :
        {made : List Bytes} {state : CatalogState} (is_table if_exists : Bool) (name : Bytes)
        (w w' : W) (state' : CatalogState)
        → Reaches made state
        → drop_entry fold J client is_table if_exists name state w ≡ (ok state', w')
        → Reaches made state'

  -- The id is one of these, but for its case.
  abbrev pub IsAmong : Bytes → List Bytes → Type 0
  IsAmong id [] = ⊥
  IsAmong id (m ∷ made) = (fold id ≡ fold m) ⊎ IsAmong id made

  -- What the set holds is among the ids that were made.
  abbrev AllMade : List Bytes → List Bytes → Type 0
  AllMade created made = (id : Bytes) → was_created fold id created ≡ true → IsAmong id made

  key_path : (a b : Bytes) → same_key fold a b ≡ true → fold a ≡ fold b
  key_path a b h = (bytes_eq.beq_iff (fold a) (fold b)).0 h

  mark-AllMade :
      (made created : List Bytes) (id : Bytes)
      → AllMade created made
      → AllMade (mark_created fold id created) (id ∷ made)
  mark-AllMade made created id all k h = elim (Bool-cases (was_created fold id created)) [
    | inl old ↦ inr (all k (unfold mark_created in rw (old, mark_created) at h))
    | inr new ↦ elim (Bool-cases (same_key fold k id)) [
      | inl same ↦ inl (key_path k id same)
      | inr other ↦ inr (
          all k
            (unfold mark_created was_created in rw (new, other, mark_created, was_created) at h))
    ]
  ]

  forgotten :
      (created : List Bytes) (id k : Bytes)
      → was_created fold k (forget_created fold id created) ≡ true
      → was_created fold k created ≡ true
  unfolding forget_created was_created
  forgotten [] id k h = h
  forgotten (c ∷ created) id k h = ground (arith, forgotten created id k)

  forget-AllMade :
      (made created : List Bytes) (id : Bytes)
      → AllMade created made
      → AllMade (forget_created fold id created) made
  forget-AllMade made created id all k h = all k (forgotten created id k h)

  -- What a step does to the set, where it succeeds.
  abbrev Marks : CatalogState → CatalogState × Bytes → Type 0
  Marks state (state', id) =
      state'.created_calendar_ids ≡ mark_created fold id state.created_calendar_ids

  create-Marks :
      (columns : List (Bytes × ColumnType)) (name : Bytes) (state : CatalogState) (w : W)
      → Ensures (Marks state) (create_table_as fold J client columns name state w)
  unfolding create_table_as
  create-Marks columns name state w =
      bind-Ensures_any _ _ (lift (validate_events_columns fold columns)) w
        λ u w1. bind-Ensures_any _ _ (insert_calendar J client name) w1 λ id w2. refl

  abbrev Forgets : CatalogState → CatalogState → Type 0
  Forgets state state' =
      (state'.created_calendar_ids ≡ state.created_calendar_ids)
      ⊎ ((id : Bytes) × (state'.created_calendar_ids
            ≡ forget_created fold id state.created_calendar_ids))

  -- The outcomes of a DROP. Nothing is sent but for a table whose calendar the session made.
  abbrev Outcome : Bytes → CatalogState → W → Result CatalogState × W → Type 0
  Outcome name state w p =
      Ensures (Forgets state) p
      × ((p.1 ≡ w)
          ⊎ ((id : Bytes) × (find_table fold name state.tables ≡ some id)
              × (was_created fold id state.created_calendar_ids ≡ true)))

  found_cases :
      (if_exists : Bool) (name : Bytes) (state : CatalogState) (w : W) (id : Bytes)
      → find_table fold name state.tables ≡ some id
      → Outcome name state w (drop_entry fold J client true if_exists name state w)
  unfolding drop_entry
  found_cases if_exists name state w id here =
      elim (Bool-cases (was_created fold id state.created_calendar_ids)) [
        | inr foreign ↦ rw (here, foreign, drop_entry) (tt, inl refl)
        | inl own ↦
            rw (here, own, drop_entry)
              (
                bind-Ensures_any _ _ (delete_calendar J client id) w (λ u w1. inr (id, refl)),
                inr (id, refl, own),
              )
      ]

  drop_cases :
      (is_table if_exists : Bool) (name : Bytes) (state : CatalogState) (w : W)
      → Outcome name state w (drop_entry fold J client is_table if_exists name state w)
  unfolding drop_entry
  drop_cases false if_exists name state w = (tt, inl refl)
  drop_cases true true name state w = elim (Option-cases (find_table fold name state.tables)) [
    | inl absent ↦ rw (absent, drop_entry) (inl refl, inl refl)
    | inr (id, here) ↦ found_cases true name state w id here
  ]
  drop_cases true false name state w = elim (Option-cases (find_table fold name state.tables)) [
    | inl absent ↦ rw (absent, drop_entry) (tt, inl refl)
    | inr (id, here) ↦ found_cases false name state w id here
  ]

  -- In every state of a session the set holds only ids of calendars that the session made.
  reaches_lem :
      (made : List Bytes) (state : CatalogState)
      → Reaches made state
      → AllMade state.created_calendar_ids made
  unfolding was_created
  reaches_lem made state (attached tables) id h = absurd cc
  reaches_lem made state
        (create_step {made = made'} {state = before} columns name w w' state' id r ran) k h =
      let marks : Marks before (state', id) =
        subst (Ensures (Marks before)) ran (create-Marks columns name before w) in
      mark-AllMade made' before.created_calendar_ids id (reaches_lem made' before r) k
        (rw marks at h)
  reaches_lem made state (drop_step {state = before} is_table if_exists name w w' state' r ran) k
        h =
      elim (subst (Ensures (Forgets before)) ran (drop_cases is_table if_exists name before w).0) [
        | inl same ↦ reaches_lem made before r k (rw same at h)
        | inr (id, less) ↦
            forget-AllMade made before.created_calendar_ids id (reaches_lem made before r) k
              (rw less at h)
      ]

  -- In every state that a session reaches from any tables by CREATE TABLE AS and DROP TABLE, a
  -- DROP leaves the world as it is, so sends nothing, unless the table that it names is that of a
  -- calendar whose id the server gave to one that the session made itself, the case of the ids
  -- aside.
  pub drop_entry_safe :
      (made : List Bytes) (state : CatalogState) (is_table if_exists : Bool) (name : Bytes) (w : W)
      → Reaches made state
      → ((drop_entry fold J client is_table if_exists name state w).1 ≡ w)
        ⊎ ((id : Bytes) × (find_table fold name state.tables ≡ some id) × IsAmong id made)
  drop_entry_safe made state is_table if_exists name w r =
      elim (drop_cases is_table if_exists name state w).1 [
        | inl quiet ↦ inl quiet
        | inr (id, here, own) ↦ inr (id, here, reaches_lem made state r id own)
      ]
