-- ===== src/Dml/Insert/Rows.antt =====
-- The count and the kept rows of an INSERT.
use duckdb_google_calendar.Common.{
  suc, ◌+◌, subst, arith, List, [], ◌∷◌, length, Bool, String, Bytes, ◌≡◌,
}
use duckdb_google_calendar.Common.Except.{Exception, Ensures, bind-Ensures, bind-Ensures_any, lift}
use duckdb_google_calendar.Json.{JsonLib}
use duckdb_google_calendar.Sql.{SqlLib}
use duckdb_google_calendar.Mapping.Write.{row_to_event}
use duckdb_google_calendar.Mapping.Read.{event_to_row}
use duckdb_google_calendar.Resources.Base.{Client}
use duckdb_google_calendar.Dml.Sink.{SinkState, Row, Grown, Grown-none, Grown-then, Grown-push}
use duckdb_google_calendar.Dml.Insert.{insert_or_update, sink_row, sink}

module _ (J : JsonLib) (S : SqlLib) (what : Exception → Bytes) {W : Type 0} (client : Client W)
    (calendar_id : Bytes) (return_chunk : Bool) (names : List String) where
  row_count :
      (row : Row S) (state : SinkState S.Value) (w : W)
      → Ensures
          (Grown return_chunk 1 state)
          (sink_row J S what client calendar_id return_chunk names row state w)
  unfolding sink_row
  row_count row state w = bind-Ensures_any _ _ (lift (row_to_event J S row names)) w λ event w1.
      bind-Ensures_any _ _ (insert_or_update J S what client calendar_id event) w1
        λ created w2. Grown-push S return_chunk (event_to_row J S created names calendar_id) state

  -- Where the rows of an INSERT are worked off without an exception, the count has grown by the
  -- number of rows, and the rows for RETURNING by as many if there is a RETURNING, and by none
  -- otherwise.
  pub insert_count :
      (rows : List (Row S)) (state : SinkState S.Value) (w : W)
      → Ensures
          (Grown return_chunk (length rows) state)
          (sink J S what client calendar_id return_chunk names rows state w)
  unfolding sink
  insert_count [] state w = Grown-none return_chunk state
  insert_count (row ∷ rows) state w =
      subst
        (λ n.
          Ensures (Grown return_chunk n state)
            (sink J S what client calendar_id return_chunk names (row ∷ rows) state w))
        (let e : 1 + length rows ≡ suc (length rows) = omega arith in e)
        (bind-Ensures _ _ (Grown return_chunk 1 state)
          (sink_row J S what client calendar_id return_chunk names row state) w
          (row_count row state w)
          λ state' w' grown.
            Grown-then return_chunk 1 (length rows) state state'
              (sink J S what client calendar_id return_chunk names rows state' w') grown
              (insert_count rows state' w'))
