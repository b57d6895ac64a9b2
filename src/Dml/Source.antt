-- ===== src/Dml/Source.antt =====
-- The sources of the three operators: `GetGlobalSourceState` and `GetDataInternal` of
-- src/storage/calendar_insert.cpp, calendar_update.cpp and calendar_delete.cpp, which differ only in
-- the names of the count.
use duckdb_google_calendar.Common.{List, Bool, false}
use duckdb_google_calendar.Sql.{SqlLib}
use duckdb_google_calendar.Dml.Sink.{SinkState, SourceState, get_data}

abbrev new_source_state : SourceState
new_source_state = record { finished = false; offset = 0 }

unfoldable pub insert_source_state : SourceState
insert_source_state = new_source_state

unfoldable pub update_source_state : SourceState
update_source_state = new_source_state

unfoldable pub delete_source_state : SourceState
delete_source_state = new_source_state

module _ (S : SqlLib) (return_chunk : Bool) (sink : SinkState S.Value) where
  unfoldable pub insert_get_data : SourceState → List (List S.Value) × SourceState × Bool
  insert_get_data = get_data S return_chunk sink

  unfoldable pub update_get_data : SourceState → List (List S.Value) × SourceState × Bool
  update_get_data = get_data S return_chunk sink

  unfoldable pub delete_get_data : SourceState → List (List S.Value) × SourceState × Bool
  delete_get_data = get_data S return_chunk sink
