-- ===== src/Dml/Delete.antt =====
-- `CalendarDelete::Sink` of src/storage/calendar_delete.cpp
pub mod Rows
use duckdb_google_calendar.Common.{ℕ, ◌+◌, List, [], ◌∷◌, ◌++◌, Bool, String, Bytes, if◌then◌else◌}
use duckdb_google_calendar.Common.Except.{Exec, pure, ◌>>=◌}
use duckdb_google_calendar.Json.{JsonLib}
use duckdb_google_calendar.Sql.{SqlLib}
use duckdb_google_calendar.Mapping.Read.{event_to_row}
use duckdb_google_calendar.Resources.Base.{Client}
use duckdb_google_calendar.Resources.Events.{get_event, delete_event}
use duckdb_google_calendar.Dml.Sink.{SinkState, Row}

module _ (J : JsonLib) (S : SqlLib) {W : Type 0} (client : Client W) (calendar_id : Bytes)
    (return_chunk : Bool) (names : List String) (row_id_index : ℕ) where
  -- With RETURNING the event is fetched, and kept before it is deleted.
  unfoldable pub fetch_row : Bytes → SinkState S.Value → Exec W (SinkState S.Value)
  fetch_row id state =
      if return_chunk
      then get_event J client calendar_id id >>= (λ event. pure (record state {
        returned = state.returned ++ (event_to_row J S event names calendar_id ∷ []);
      }))
      else pure state

  -- A round of the loop over the rows of a chunk.
  unfoldable pub sink_row : Row S → SinkState S.Value → Exec W (SinkState S.Value)
  unfolding fetch_row
  sink_row row state =
      let id_val = row row_id_index in
      let id = S.to_string id_val in
      if S.is_null id_val then pure state else do
        kept ← fetch_row id state
        _ ← delete_event J client calendar_id id
        pure (record kept { count = kept.count + 1 })

  unfoldable pub sink : List (Row S) → SinkState S.Value → Exec W (SinkState S.Value)
  unfolding sink_row
  sink [] state = pure state
  sink (row ∷ rows) state = sink_row row state >>= λ state'. sink rows state'
