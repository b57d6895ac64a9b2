-- ===== src/Dml/Service/Delete.antt =====
-- A DELETE (src/storage/calendar_delete.cpp) as a step of the abstract table.
use duckdb_google_calendar.Common.{
  ℕ, ◌+◌, List, [], ◌∷◌, ◌++◌, Bool, false, String, Bytes, IsBytes, Option, none, some,
  if◌then◌else◌, All, arith, ◌≡◌, ap, ◌∙◌, inl, inr, Bool-cases, Option-cases,
}
use duckdb_google_calendar.Common.Except.{ok}
use duckdb_google_calendar.Json.{JsonLib}
use duckdb_google_calendar.Sql.{SqlLib}
use duckdb_google_calendar.Mapping.Read.{event_to_row}
use duckdb_google_calendar.Resources.Base.{Client}
use duckdb_google_calendar.Dml.Sink.{SinkState, Row}
use duckdb_google_calendar.Dml.Delete.{fetch_row, sink_row, sink}
use duckdb_google_calendar.Dml.Service.{Events, erase_event, Store}
use duckdb_google_calendar.Dml.Service.Calls.{get_event-stored, delete_event-stored}

module _ (J : JsonLib) (S : SqlLib) (calendar_id : Bytes) (return_chunk : Bool)
    (names : List String) (row_id_index : ℕ) where
  -- The state of the sink behind the row of an event.
  abbrev pub counted : J.Json → SinkState S.Value → SinkState S.Value
  counted event state = record {
    count = state.count + 1;
    returned =
        if return_chunk
        then state.returned ++ (event_to_row J S event names calendar_id ∷ [])
        else state.returned;
  }

  -- The rows go one by one: an event that is there is counted, kept for RETURNING as it was, and
  -- taken out. `none` where an event is not there.
  abbrev pub delete_all :
      List (Row S) → Events J → SinkState S.Value → Option (Events J × SinkState S.Value)
  delete_all [] events state = some (events, state)
  delete_all (row ∷ rows) events state =
      let id = S.to_string (row row_id_index) in
      let skipped = delete_all rows events state in
      if S.is_null (row row_id_index) then skipped else elim (events id) [
        | none ↦ none
        | some event ↦ delete_all rows (erase_event J id events) (counted event state)
      ]

  module _ {W : Type 0} (client : Client W) (store : Store J client calendar_id) where
    open store use {stored}

    row_deleted :
        (row : Row S) (event : J.Json) (state : SinkState S.Value) (w : W)
        → S.is_null (row row_id_index) ≡ false
        → IsBytes (S.to_string (row row_id_index))
        → stored w (S.to_string (row row_id_index)) ≡ some event
        → (w' : W) × (sink_row J S client calendar_id return_chunk names row_id_index row state w
            ≡ (ok (counted event state), w'))
          × (stored w' ≡ erase_event J (S.to_string (row row_id_index)) (stored w))
    unfolding sink_row fetch_row
    row_deleted row event state w there bytes found =
        let id = S.to_string (row row_id_index) in
        elim (Bool-cases return_chunk) [
          | inl keep ↦
              let (w1, got, same) =
                get_event-stored J client calendar_id store w id event bytes found in
              let (w2, gone, erased) =
                delete_event-stored J client calendar_id store w1 id event bytes
                  (ap (λ (t : Events J). t id) same ∙ found) in
              (w2, rw (there, keep, sink_row, got, gone), erased ∙ ap (erase_event J id) same)
          | inr plain ↦
              let (w1, gone, erased) =
                delete_event-stored J client calendar_id store w id event bytes found in
              (w1, rw (there, plain, sink_row, gone), erased)
        ]

    -- Over such a server, where the ids of rows are texts of bytes, and the abstract DELETE finds
    -- the event of each row whose id is not NULL when its turn comes: the DELETE comes to an end
    -- without an exception, and the stored events and the state of the sink are those of the
    -- abstract DELETE, which takes each event out, counts it, and keeps it for RETURNING as it
    -- was, if there is one.
    pub delete_refines :
        (rows : List (Row S)) (state state' : SinkState S.Value) (events : Events J) (w : W)
        → All (λ row. IsBytes (S.to_string (row row_id_index))) rows
        → delete_all rows (stored w) state ≡ some (events, state')
        → (w' : W) × (sink J S client calendar_id return_chunk names row_id_index rows state w
            ≡ (ok state', w'))
          × (stored w' ≡ events)
    unfolding sink
    delete_refines [] state state' events w bytes h = (w, ground arith, ground arith)
    delete_refines (row ∷ rows) state state' events w (here, rest) h =
        let id = S.to_string (row row_id_index) in
        elim (Bool-cases (S.is_null (row row_id_index))) [
          | inl skip ↦
              let (w', done, kept) =
                delete_refines rows state state' events w rest (rw skip at h) in
              (w', rw (skip, sink_row) done, kept)
          | inr there ↦ elim (Option-cases (stored w id)) [
            | inl absent ↦
                let stuck : ◌≡◌ {A = Option (Events J × SinkState S.Value)} none
                    (some (events, state')) =
                  rw (there, absent) at h in
                absurd cc
            | inr (event, found) ↦
                let (w1, one, erased) = row_deleted row event state w there here found in
                let more : delete_all rows (erase_event J id (stored w)) (counted event state)
                    ≡ some (events, state') =
                  rw (there, found) at h in
                let (w', done, kept) =
                  delete_refines rows (counted event state) state' events w1 rest
                    (rw erased more) in
                (w', rw one done, kept)
          ]
        ]
