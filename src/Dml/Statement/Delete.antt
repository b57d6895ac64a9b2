-- ===== src/Dml/Statement/Delete.antt =====
-- A DELETE as a whole, from the chunks of rows to its result.
use duckdb_google_calendar.Common.{
  ℕ, ◌*◌, ◌<◌, List, Bool, String, Bytes, IsBytes, Option, some, All, length, ◌≡◌, refl,
}
use duckdb_google_calendar.Common.Except.{Exec, ok}
use duckdb_google_calendar.Json.{JsonLib}
use duckdb_google_calendar.Sql.{SqlLib}
use duckdb_google_calendar.Mapping.Emit.{standard_vector_size}
use duckdb_google_calendar.Resources.Base.{Client}
use duckdb_google_calendar.Dml.Sink.{SinkState, Row}
use duckdb_google_calendar.Dml.Source.{delete_get_data, delete_source_state}
use duckdb_google_calendar.Dml.Delete.{sink_row, sink}
use duckdb_google_calendar.Dml.Service.{Events, Store}
use duckdb_google_calendar.Dml.Service.Delete.{delete_all, delete_refines}
use duckdb_google_calendar.Dml.Statement.{
  new_sink, concat, sink-concat, result, result_rows_lem, execute_statement,
}

module _ (J : JsonLib) (S : SqlLib) (calendar_id : Bytes) (return_chunk : Bool)
    (names : List String) (row_id_index : ℕ) {W : Type 0} (client : Client W)
    (store : Store J client calendar_id) where
  open store use {stored}

  abbrev pub run_delete : ℕ → List (List (Row S)) → Exec W (Option (List (List S.Value)))
  unfolding delete_get_data delete_source_state
  run_delete =
      execute_statement S (sink J S client calendar_id return_chunk names row_id_index)
        (delete_get_data S return_chunk) delete_source_state

  -- Over a server from which the stored events of a calendar can be read and deleted, and nobody
  -- else changes it: where the ids of rows are texts of bytes and the abstract DELETE of all rows
  -- finds their events, however the engine cuts the rows into chunks, the DELETE comes to an end
  -- without an exception, in as many calls for the result as fill more than all kept rows, 2048 to
  -- a call. Then the stored events are those of the abstract DELETE, and the result is one row
  -- with the number of the events that were taken out, or with RETURNING the rows of these events
  -- as they were, in order.
  pub run_delete_refines :
      (fuel : ℕ) (chunks : List (List (Row S))) (state' : SinkState S.Value) (events : Events J)
      (w : W)
      → All (λ row. IsBytes (S.to_string (row row_id_index))) (concat chunks)
      → delete_all J S calendar_id return_chunk names row_id_index
          (concat chunks)
          (stored w)
          new_sink
        ≡ some (events, state')
      → length state'.returned < fuel * standard_vector_size
      → (w' : W) × (run_delete fuel chunks w ≡ (ok (some (result S return_chunk state')), w'))
        × (stored w' ≡ events)
  unfolding sink delete_get_data delete_source_state
  run_delete_refines fuel chunks state' events w bytes found enough =
      let (w', done, same) =
        delete_refines J S calendar_id return_chunk names row_id_index client store (concat chunks)
          new_sink state' events w bytes found in
      (
        w',
        rw
            (
              sink-concat (sink J S client calendar_id return_chunk names row_id_index)
                  (sink_row J S client calendar_id return_chunk names row_id_index)
                  (λ state v. refl) (λ row rows state v. refl) chunks new_sink w,
              done,
              result_rows_lem S return_chunk fuel state' enough,
            )
            refl,
        same,
      )
