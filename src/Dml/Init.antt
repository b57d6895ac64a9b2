-- ===== src/Dml/Init.antt =====
-- The global state of a sink before its first row: `GetGlobalSinkState` of
-- src/storage/calendar_insert.cpp, calendar_update.cpp and calendar_delete.cpp.
use duckdb_google_calendar.Common.{List, [], String, Bytes, Bool, if◌then◌else◌}
use duckdb_google_calendar.Common.Except.{Exec, pure, ◌>>=◌}
use duckdb_google_calendar.Resources.Base.{Client}
use duckdb_google_calendar.Catalog.Transaction.{CalendarTransaction, get_client}
use duckdb_google_calendar.Dml.Sink.{SinkState}

-- A state with what stays as it is.
pub record GlobalSink (W V : Type 0) : Type 0 where
  pub client : Client W
  pub calendar_id : Bytes
  pub names : List String
  pub state : SinkState V

-- `columns` are the names of the logical columns of the table.
module _ {W V : Type 0} (make : Exec W (Client W)) (calendar_id : Bytes)
    (columns : List String) where
  abbrev with_names : List String → Exec (CalendarTransaction W × W) (GlobalSink W V)
  with_names names = get_client make >>= (λ client. pure (record {
    client = client;
    calendar_id = calendar_id;
    names = names;
    state = record { count = 0; returned = [] };
  }))

  unfoldable pub insert_sink_state : Exec (CalendarTransaction W × W) (GlobalSink W V)
  insert_sink_state = with_names columns

  unfoldable pub update_sink_state : Exec (CalendarTransaction W × W) (GlobalSink W V)
  update_sink_state = with_names columns

  -- The names are wanted for RETURNING only.
  unfoldable pub delete_sink_state : Bool → Exec (CalendarTransaction W × W) (GlobalSink W V)
  delete_sink_state return_chunk = with_names (if return_chunk then columns else [])
