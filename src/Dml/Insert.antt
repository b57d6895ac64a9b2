-- ===== src/Dml/Insert.antt =====
-- `CalendarInsert::Sink` of src/storage/calendar_insert.cpp
pub mod Upsert
pub mod Rows
use duckdb_google_calendar.Common.{
  ℕ, List, [], ◌∷◌, Bool, true, false, ◌&&◌, String, Bytes, codes, ◌==◌, nat_eq, if◌then◌else◌,
  none, some,
}
use duckdb_google_calendar.Common.Except.{
  Exec, Result, ok, throw, Exception, calendar_api, io, pure, raise, lift, ◌>>=◌, json_call,
}
use duckdb_google_calendar.Json.{JsonLib}
use duckdb_google_calendar.Sql.{SqlLib}
use duckdb_google_calendar.Mapping.Times.{has}
use duckdb_google_calendar.Mapping.Write.{row_to_event}
use duckdb_google_calendar.Mapping.Read.{event_to_row}
use duckdb_google_calendar.Resources.Base.{Client}
use duckdb_google_calendar.Resources.Events.{insert_event, update_event}
use duckdb_google_calendar.Dml.Sink.{SinkState, Row, push_row}

-- `what e` is `e.what()`, which the standard library keeps.
module _ (J : JsonLib) (S : SqlLib) (what : Exception → Bytes) where
  -- `event["id"].get<string>()`
  abbrev pub get_id : J.Json → Result Bytes
  get_id event = elim (J.member event "id") [
    | none ↦ json_call none
    | some id ↦ json_call (J.as_string id)
  ]

  module _ {W : Type 0} (client : Client W) (calendar_id : Bytes) where
    -- The exception that says which event failed.
    unfoldable pub insert_failed : J.Json → Exception → Exec W J.Json
    insert_failed event e = do
      id ← lift (if has J event "id" then get_id event else ok (codes "(server-assigned)"))
      raise (
          io
            "google_calendar: events.insert failed for event_id=%s on calendar %s: %s\nrequest body: %s"
            (id ∷ calendar_id ∷ what e ∷ J.dump event ∷ []))

    -- The two `catch` clauses.
    unfoldable pub on_exception : J.Json → Exception → Exec W J.Json
    unfolding insert_failed
    on_exception event (calendar_api status_code message) =
        if status_code == 409 && has J event "id"
        then lift (get_id event) >>= (λ id. update_event J client calendar_id id event)
        else insert_failed event (calendar_api status_code message)
    on_exception event e = insert_failed event e

    -- `try { … } catch …`, from the outcome of the call under `try`.
    unfoldable pub recover : J.Json → Result J.Json × W → Result J.Json × W
    unfolding on_exception
    recover event (ok created, w) = (ok created, w)
    recover event (throw e, w) = on_exception event e w

    unfoldable pub insert_or_update : J.Json → Exec W J.Json
    unfolding recover
    insert_or_update event w = recover event (insert_event J client calendar_id event w)

    module _ (return_chunk : Bool) (names : List String) where
      -- A round of the loop over the rows of a chunk.
      unfoldable pub sink_row : Row S → SinkState S.Value → Exec W (SinkState S.Value)
      unfolding insert_or_update
      sink_row row state = do
        event ← lift (row_to_event J S row names)
        created ← insert_or_update event
        pure (push_row S return_chunk (event_to_row J S created names calendar_id) state)

      unfoldable pub sink : List (Row S) → SinkState S.Value → Exec W (SinkState S.Value)
      unfolding sink_row
      sink [] state = pure state
      sink (row ∷ rows) state = sink_row row state >>= λ state'. sink rows state'
