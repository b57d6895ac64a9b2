-- ===== src/Dml/Statement/Update.antt =====
-- An UPDATE as a whole, from the chunks of rows to its result.
use duckdb_google_calendar.Common.{
  ℕ, ◌*◌, ◌<◌, List, Bool, true, String, Bytes, Option, some, All, length, ◌≡◌, refl, ◌⊎◌, subst,
  arith,
}
use duckdb_google_calendar.Common.Except.{Exec, Ensures, ok}
use duckdb_google_calendar.Json.{JsonLib, IsLawful}
use duckdb_google_calendar.Sql.{SqlLib}
use duckdb_google_calendar.Mapping.Emit.{standard_vector_size}
use duckdb_google_calendar.Mapping.Write.Table.{is_writable}
use duckdb_google_calendar.Resources.Base.{Client}
use duckdb_google_calendar.Dml.Sink.{SinkState, Row, Grown, rows_with_id, kept_le-with_id}
use duckdb_google_calendar.Dml.Source.{update_get_data, update_source_state}
use duckdb_google_calendar.Dml.Update.{Sets, sink_row, sink}
use duckdb_google_calendar.Dml.Update.Laws.{set_names}
use duckdb_google_calendar.Dml.Update.Rows.{sink_count}
use duckdb_google_calendar.Dml.Service.{Service}
use duckdb_google_calendar.Dml.Service.Update.{IsKnown, Allowed, Updates, update_refines}
use duckdb_google_calendar.Dml.Statement.{
  new_sink, concat, sink-concat, result, result_rows_lem, execute_statement,
}

module _ (J : JsonLib) (S : SqlLib) (calendar_id : Bytes) (return_chunk : Bool)
    (names : List String) (row_id_index : ℕ) (sets : Sets) {W : Type 0} (client : Client W)
    (service : Service J client calendar_id) where
  open service use {store}
  open store use {stored}

  abbrev pub run_update : ℕ → List (List (Row S)) → Exec W (Option (List (List S.Value)))
  unfolding update_get_data update_source_state
  run_update =
      execute_statement S (sink J S return_chunk client calendar_id names row_id_index sets)
        (update_get_data S return_chunk) update_source_state

  -- Over a server that keeps the events of a calendar, that nobody else changes and for which no
  -- request fails on the network, and that takes some bodies of events and not others: let the ids
  -- of rows be NULL or those of stored events, let there be a RETURNING or a SET list of writable
  -- columns, and let the values of SET make bodies that the server takes of events that it takes.
  -- However the engine cuts the rows into chunks, the UPDATE comes to an end without an exception,
  -- in as many calls for the result as fill more than all rows, 2048 to a call. Then the stored
  -- events and the state of the sink are those of the abstract UPDATE: row by row, the stored
  -- event of the row is changed to an object with the values of the columns of SET in their
  -- fields, each in the encoding of its column, unless a later column is about the same field, and
  -- with all fields of no such column as they are; what the server makes of that object takes its
  -- place, and is counted, and kept for RETURNING if there is one; a row whose id is NULL is
  -- passed over. The result is one row with that count, or with RETURNING the kept rows in order.
  pub run_update_refines :
      (fuel : ℕ) (chunks : List (List (Row S))) (w : W)
      → IsLawful J
      → (return_chunk ≡ true) ⊎ All (λ name. is_writable true name ≡ true) (set_names sets)
      → All
          (IsKnown J S calendar_id return_chunk names row_id_index sets (stored w))
          (concat chunks)
      → All
          (Allowed J S calendar_id return_chunk names row_id_index sets client service)
          (concat chunks)
      → length (concat chunks) < fuel * standard_vector_size
      → (state' : SinkState S.Value) × (w' : W) × (run_update fuel chunks w
          ≡ (ok (some (result S return_chunk state')), w'))
        × Updates J S calendar_id return_chunk names row_id_index sets client service
            (concat chunks)
            (stored w)
            new_sink
            (stored w')
            state'
  unfolding sink update_get_data update_source_state
  run_update_refines fuel chunks w L writable known allowed enough =
      let (state', w', done, chain) =
        update_refines J S calendar_id return_chunk names row_id_index sets client service L
          writable (concat chunks) new_sink w known allowed in
      let grown : Grown return_chunk (rows_with_id S row_id_index (concat chunks)) new_sink state' =
        subst (Ensures (Grown return_chunk (rows_with_id S row_id_index (concat chunks)) new_sink))
          done
          (sink_count J S client calendar_id names row_id_index sets return_chunk (concat chunks)
            new_sink w) in
      (
        state',
        w',
        rw
            (
              sink-concat (sink J S return_chunk client calendar_id names row_id_index sets)
                  (sink_row J S return_chunk client calendar_id names row_id_index sets)
                  (λ state v. refl) (λ row rows state v. refl) chunks new_sink w,
              done,
              result_rows_lem S return_chunk fuel state' (
                  omega (
                    arith,
                    kept_le-with_id S return_chunk row_id_index (concat chunks) new_sink state'
                        grown,
                    enough,
                  )),
            )
            refl,
        chain,
      )
