-- ===== src/Dml/Update.antt =====
-- `CalendarUpdate::Sink` of src/storage/calendar_update.cpp
pub mod Laws
pub mod Rows
use duckdb_google_calendar.Common.{
  ℕ, ◌+◌, List, [], ◌∷◌, ◌++◌, Bool, true, false, not, ◌&&◌, String, Bytes, ◌==◌, string_eq,
  if◌then◌else◌, get_or,
}
use duckdb_google_calendar.Common.Except.{Exec, Result, ok, bind, pure, lift, ◌>>=◌}
use duckdb_google_calendar.Json.{JsonLib}
use duckdb_google_calendar.Sql.{SqlLib}
use duckdb_google_calendar.Mapping.Times.{existing_all_day}
use duckdb_google_calendar.Mapping.Write.{apply_column, apply_set}
use duckdb_google_calendar.Mapping.Read.{event_to_row}
use duckdb_google_calendar.Resources.Base.{Client}
use duckdb_google_calendar.Resources.Events.{get_event, update_event}
use duckdb_google_calendar.Dml.Sink.{SinkState, Row, push_row}

-- The columns of SET as pairs of `names[columns[c].index]` and `value_indices[c]`.
abbrev pub Sets : Type 0
Sets = List (String × ℕ)

module _ (J : JsonLib) (S : SqlLib) (return_chunk : Bool) where
  -- The first loop over the columns.
  unfoldable pub new_all_day : Row S → Sets → Bool → Bool
  new_all_day row [] all_day = all_day
  new_all_day row ((name, c) ∷ sets) all_day =
      new_all_day row sets
        (if name == "all_day" then not (S.is_null (row c)) && S.get_boolean (row c) else all_day)

  -- The call for one column in the second.
  unfoldable pub apply_one : J.Json → String → S.Value → Bool → Result J.Json
  apply_one event name val all_day =
      if return_chunk
      then bind (apply_column J S event name val all_day true) (λ (e, _). ok e)
      else apply_set J S event name val all_day

  unfoldable pub apply_sets : Row S → Sets → Bool → J.Json → Result J.Json
  unfolding apply_one
  apply_sets row [] all_day event = ok event
  apply_sets row ((name, c) ∷ sets) all_day event =
      bind (apply_one event name (row c) all_day) (λ e. apply_sets row sets all_day e)

  module _ {W : Type 0} (client : Client W) (calendar_id : Bytes) (names : List String)
      (row_id_index : ℕ) (sets : Sets) where
    -- A round of the loop over the rows of a chunk.
    unfoldable pub sink_row : Row S → SinkState S.Value → Exec W (SinkState S.Value)
    unfolding new_all_day apply_sets
    sink_row row state =
        let id_val = row row_id_index in
        let id = S.to_string id_val in
        if S.is_null id_val then pure state else do
          event ← get_event J client calendar_id id
          let all_day = new_all_day row sets (existing_all_day J event)
          changed ← lift (apply_sets row sets all_day event)
          updated ← update_event J client calendar_id id changed
          pure (push_row S return_chunk (event_to_row J S updated names calendar_id) state)

    unfoldable pub sink : List (Row S) → SinkState S.Value → Exec W (SinkState S.Value)
    unfolding sink_row
    sink [] state = pure state
    sink (row ∷ rows) state = sink_row row state >>= λ state'. sink rows state'
