-- ===== src/Dml/Statement/Insert.antt =====
-- An INSERT as a whole, from the chunks of rows to its result.
use duckdb_google_calendar.Common.{
  ℕ, ◌*◌, ◌<◌, List, Bool, String, Bytes, Option, some, All, length, ◌≡◌, refl, subst, arith,
}
use duckdb_google_calendar.Common.Except.{Exception, Exec, Ensures, ok}
use duckdb_google_calendar.Json.{JsonLib, IsLawful}
use duckdb_google_calendar.Sql.{SqlLib}
use duckdb_google_calendar.Mapping.Emit.{standard_vector_size}
use duckdb_google_calendar.Resources.Base.{Client}
use duckdb_google_calendar.Dml.Sink.{SinkState, Row, Grown, kept_le}
use duckdb_google_calendar.Dml.Source.{insert_get_data, insert_source_state}
use duckdb_google_calendar.Dml.Insert.{sink_row, sink}
use duckdb_google_calendar.Dml.Insert.Rows.{insert_count}
use duckdb_google_calendar.Dml.Service.{Service}
use duckdb_google_calendar.Dml.Service.Insert.{IsInsertable, Upserts, insert_refines}
use duckdb_google_calendar.Dml.Statement.{
  new_sink, concat, sink-concat, result, result_rows_lem, execute_statement,
}

module _ (J : JsonLib) (S : SqlLib) (what : Exception → Bytes) (calendar_id : Bytes)
    (return_chunk : Bool) (names : List String) {W : Type 0} (client : Client W)
    (service : Service J client calendar_id) where
  open service use {store}
  open store use {stored}

  abbrev pub run_insert : ℕ → List (List (Row S)) → Exec W (Option (List (List S.Value)))
  unfolding insert_get_data insert_source_state
  run_insert =
      execute_statement S (sink J S what client calendar_id return_chunk names)
        (insert_get_data S return_chunk) insert_source_state

  -- Over such a server, which also keeps ids reserved: it answers 409 to a POST with a reserved
  -- id, be it that of an event or of a deleted one, and makes the event of a PUT in such a place.
  -- Let the rows be mapped to objects that it takes, and their ids, if they have one, be texts of
  -- bytes. However the engine cuts the rows into chunks, the INSERT comes to an end without an
  -- exception, also where an id is reserved, in as many calls for the result as fill more than all
  -- rows, 2048 to a call. Then the stored events and the state of the sink are those of the
  -- abstract INSERT: row by row, what the server makes of the event of the row is stored, in the
  -- place of the id that the last `event_id` of the row which is not NULL names, whether there was
  -- an event or not, and without one in a place that was free; it is counted, and kept for
  -- RETURNING if there is one. The result is one row with that count, or with RETURNING the kept
  -- rows in order.
  pub run_insert_refines :
      (fuel : ℕ) (chunks : List (List (Row S))) (w : W)
      → IsLawful J
      → All (IsInsertable J S what calendar_id return_chunk names client service) (concat chunks)
      → length (concat chunks) < fuel * standard_vector_size
      → (state' : SinkState S.Value) × (w' : W) × (run_insert fuel chunks w
          ≡ (ok (some (result S return_chunk state')), w'))
        × Upserts J S what calendar_id return_chunk names client service
            (concat chunks)
            (stored w)
            new_sink
            (stored w')
            state'
  unfolding sink insert_get_data insert_source_state
  run_insert_refines fuel chunks w L insertable enough =
      let (state', w', done, chain) =
        insert_refines J S what calendar_id return_chunk names client service (concat chunks)
          new_sink w L insertable in
      let grown : Grown return_chunk (length (concat chunks)) new_sink state' =
        subst (Ensures (Grown return_chunk (length (concat chunks)) new_sink)) done (
          insert_count J S what client calendar_id return_chunk names (concat chunks) new_sink w) in
      (
        state',
        w',
        rw
            (
              sink-concat (sink J S what client calendar_id return_chunk names)
                  (sink_row J S what client calendar_id return_chunk names) (λ state v. refl)
                  (λ row rows state v. refl) chunks new_sink w,
              done,
              result_rows_lem S return_chunk fuel state' (
                  omega (
                    arith,
                    kept_le S return_chunk (length (concat chunks)) (concat chunks) new_sink state'
                        (omega arith) grown,
                    enough,
                  )),
            )
            refl,
        chain,
      )
