-- ===== src/Dml/Service/Update.antt =====
-- An UPDATE (src/storage/calendar_update.cpp) as a step of the abstract table.
use duckdb_google_calendar.Common.{
  ℕ, List, [], ◌∷◌, Bool, true, false, String, Bytes, IsBytes, some, if◌then◌else◌, All, ◌≡◌, refl,
  ap, ◌∙◌, ◌⊎◌, inl, inr, Bool-cases, string_eq, ◌==◌, bytes_eq,
}
use duckdb_google_calendar.Common.Except.{ok}
use duckdb_google_calendar.Json.{JsonLib, IsLawful}
use duckdb_google_calendar.Sql.{SqlLib}
use duckdb_google_calendar.Mapping.Times.{existing_all_day}
use duckdb_google_calendar.Mapping.Read.{event_to_row}
use duckdb_google_calendar.Mapping.Write.Table.{is_writable}
use duckdb_google_calendar.Resources.Base.{Client}
use duckdb_google_calendar.Dml.Sink.{SinkState, Row, push_row}
use duckdb_google_calendar.Dml.Update.{Sets, new_all_day, sink_row, sink}
use duckdb_google_calendar.Dml.Update.Laws.{set_names, Changed, apply_sets_lem}
use duckdb_google_calendar.Dml.Service.{Events, set_event, Service}
use duckdb_google_calendar.Dml.Service.Calls.{get_event-stored, update_event-Replies}

module _ (J : JsonLib) (S : SqlLib) (calendar_id : Bytes) (return_chunk : Bool)
    (names : List String) (row_id_index : ℕ) (sets : Sets) where
  abbrev row_id : Row S → Bytes
  row_id row = S.to_string (row row_id_index)

  -- What the columns of SET make of an event: their values, with times encoded for a whole day if
  -- `all_day` is set to true, or else as the event is, and all other fields as they are.
  abbrev pub Changes : Row S → J.Json → J.Json → Type 0
  Changes row old body =
      Changed J S row sets (new_all_day J S return_chunk row sets (existing_all_day J old)) old body

  -- The row id is NULL, or the id of an event.
  abbrev pub IsKnown : Events J → Row S → Type 0
  IsKnown events row =
      (S.is_null (row row_id_index) ≡ true)
      ⊎ (IsBytes (row_id row) × (event : J.Json) × (events (row_id row) ≡ some event))

  IsKnown-set :
      (id : Bytes) (event : J.Json) (events : Events J) (row : Row S)
      → IsKnown events row
      → IsKnown (set_event J id event events) row
  IsKnown-set id event events row (inl skip) = inl skip
  IsKnown-set id event events row (inr (bytes, old, found)) = elim (Bool-cases (row_id row == id)) [
    | inl same ↦ inr (bytes, event, rw same)
    | inr other ↦ inr (bytes, old, rw other found)
  ]

  All-IsKnown-set :
      (id : Bytes) (event : J.Json) (events : Events J) (rows : List (Row S))
      → All (IsKnown events) rows
      → All (IsKnown (set_event J id event events)) rows
  All-IsKnown-set id event events [] h = tt
  All-IsKnown-set id event events (row ∷ rows) (h, hs) =
      (IsKnown-set id event events row h, All-IsKnown-set id event events rows hs)

  module _ {W : Type 0} (client : Client W) (service : Service J client calendar_id) where
    open service use {store, Takes, Accepts}
    open store use {stored}

    -- The columns of SET make bodies that the server takes of events that it takes.
    abbrev pub Allowed : Row S → Type 0
    Allowed row = (old : J.Json) (body : J.Json) → Takes old → Changes row old body → Takes body

    -- The rows go one by one: the event of a row is changed by the columns of SET, and what the
    -- server makes of it takes its place, is counted, and is kept for RETURNING.
    abbrev pub Updates :
        List (Row S) → Events J → SinkState S.Value → Events J → SinkState S.Value → Type 0
    Updates [] events state events' state' = (events' ≡ events) × (state' ≡ state)
    Updates (row ∷ rows) events state events' state' =
        if S.is_null (row row_id_index)
        then Updates rows events state events' state'
        else (old : J.Json) × (body : J.Json) × (new : J.Json) × (events (row_id row) ≡ some old)
          × Changes row old body
          × Accepts body new
          × Updates rows (set_event J (row_id row) new events)
              (push_row S return_chunk (event_to_row J S new names calendar_id) state) events'
              state'

    module _ (L : IsLawful J)
        (writable : (return_chunk ≡ true)
          ⊎ All (λ name. is_writable true name ≡ true) (set_names sets)) where
      row_updated :
          (row : Row S) (old : J.Json) (state : SinkState S.Value) (w : W)
          → S.is_null (row row_id_index) ≡ false
          → IsBytes (row_id row)
          → stored w (row_id row) ≡ some old
          → Allowed row
          → (body : J.Json) × (new : J.Json) × (w' : W) × (sink_row J S return_chunk client
                calendar_id names row_id_index sets row state w
              ≡ (ok (push_row S return_chunk (event_to_row J S new names calendar_id) state), w'))
            × Changes row old body
            × Accepts body new
            × (stored w' ≡ set_event J (row_id row) new (stored w))
      unfolding sink_row
      row_updated row old state w there bytes found allowed =
          let id = row_id row in
          let (w1, got, same) = get_event-stored J client calendar_id store w id old bytes found in
          let (body, applied, changed) =
            apply_sets_lem J L S return_chunk row sets
              (new_all_day J S return_chunk row sets (existing_all_day J old)) old
              (service.stored_object w id old found) writable in
          let (new, w2, sent, accepted, put) =
            service.put_reserved w1 id body bytes
              (service.stored_reserved w1 id old (ap (λ (t : Events J). t id) same ∙ found))
              changed.0 (allowed old body (service.stored_taken w id old found) changed) in
          (
            body,
            new,
            w2,
            rw (
              there,
              got,
              applied,
              update_event-Replies J client calendar_id id body new w1 w2 sent,
              sink_row,
            ),
            changed,
            accepted,
            put ∙ ap (set_event J id new) same,
          )

      -- Over such a server, an UPDATE of rows whose ids are NULL or those of stored events, where the
      -- values of SET make bodies that the server takes, and with RETURNING or a SET list of
      -- writable columns, comes to an end without an exception, and the stored events and the state
      -- of the sink are those of the abstract UPDATE.
      pub update_refines :
          (rows : List (Row S)) (state : SinkState S.Value) (w : W)
          → All (IsKnown (stored w)) rows
          → All Allowed rows
          → (state' : SinkState S.Value) × (w' : W) × (sink J S return_chunk client calendar_id
                names row_id_index sets rows state w
              ≡ (ok state', w'))
            × Updates rows (stored w) state (stored w') state'
      unfolding sink
      update_refines [] state w h a = (state, w, refl, (refl, refl))
      update_refines (row ∷ rows) state w (inl skip, hs) (_, rest) =
          let (state', w', done, chain) = update_refines rows state w hs rest in
          (state', w', rw (skip, sink_row) done, rw skip chain)
      update_refines (row ∷ rows) state w (inr (bytes, old, found), hs) (a, rest) =
          elim (Bool-cases (S.is_null (row row_id_index))) [
            | inl skip ↦
                let (state', w', done, chain) = update_refines rows state w hs rest in
                (state', w', rw (skip, sink_row) done, rw skip chain)
            | inr there ↦
                let (body, new, w1, one, changes, accepted, put) =
                  row_updated row old state w there bytes found a in
                let (state', w', done, chain) =
                  update_refines rows
                    (push_row S return_chunk (event_to_row J S new names calendar_id) state) w1
                    (rw put (All-IsKnown-set (row_id row) new (stored w) rows hs)) rest in
                (
                  state',
                  w',
                  rw one done,
                  rw there (old, body, new, found, changes, accepted, rw put at chain),
                )
          ]
