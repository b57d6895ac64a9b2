-- ===== src/Dml/Update/Rows.antt =====
-- What an UPDATE does to the calendar and to its own state, row by row.
use duckdb_google_calendar.Common.{
  ℕ, List, [], ◌∷◌, Bool, true, false, String, Bytes, some, string_eq, if◌then◌else◌, ◌≡◌, refl,
  inl, inr, Bool-cases,
}
use duckdb_google_calendar.Common.Except.{ok, throw, Ensures, bind-Ensures, bind-Ensures_any, lift}
use duckdb_google_calendar.Json.{JsonLib, IsLawful}
use duckdb_google_calendar.Sql.{SqlLib}
use duckdb_google_calendar.Mapping.Times.{existing_all_day}
use duckdb_google_calendar.Mapping.Read.{event_to_row}
use duckdb_google_calendar.Resources.Base.{Client}
use duckdb_google_calendar.Resources.Events.{get_event, update_event}
use duckdb_google_calendar.Dml.Sink.{
  SinkState, Row, Grown, Grown-none, Grown-then, Grown-push, rows_with_id,
}
use duckdb_google_calendar.Dml.Update.{Sets, new_all_day, apply_sets, sink_row, sink}
use duckdb_google_calendar.Dml.Update.Laws.{first_read_only, read_only_error, apply_sets_read_only}

module _ (J : JsonLib) (S : SqlLib) {W : Type 0} (client : Client W) (calendar_id : Bytes)
    (names : List String) (row_id_index : ℕ) (sets : Sets) where
  -- A plain UPDATE whose SET list has a column that may not be written throws, for the first such
  -- column, after the event was fetched as an object: the world is the one that the fetch left, so
  -- nothing is sent.
  pub sink_row_read_only :
      (L : IsLawful J) (row : Row S) (state : SinkState S.Value) (name : String) (event : J.Json)
      (w w' : W)
      → S.is_null (row row_id_index) ≡ false
      → get_event J client calendar_id (S.to_string (row row_id_index)) w ≡ (ok event, w')
      → J.is_object event ≡ true
      → first_read_only sets ≡ some name
      → sink_row J S false client calendar_id names row_id_index sets row state w
        ≡ (throw (read_only_error name), w')
  unfolding sink_row
  sink_row_read_only L row state name event w w' there got object h = rw (
    there,
    got,
    apply_sets_read_only J L S false row sets
        (new_all_day J S false row sets (existing_all_day J event)) event name object refl h,
    sink_row,
  )

  module _ (return_chunk : Bool) where
    row_count :
        (row : Row S) (state : SinkState S.Value) (w : W)
        → Ensures
            (Grown return_chunk (if S.is_null (row row_id_index) then 0 else 1) state)
            (sink_row J S return_chunk client calendar_id names row_id_index sets row state w)
    unfolding sink_row
    row_count row state w = elim (Bool-cases (S.is_null (row row_id_index))) [
      | inl skip ↦ rw (skip, sink_row) (Grown-none return_chunk state)
      | inr there ↦
          rw (there, sink_row)
            (bind-Ensures_any _ _ (get_event J client calendar_id (S.to_string (row row_id_index)))
              w
              λ event w1.
                bind-Ensures_any _ _
                  (lift (
                    apply_sets J S return_chunk row sets
                      (new_all_day J S return_chunk row sets (existing_all_day J event)) event))
                  w1
                  λ changed w2.
                    bind-Ensures_any _ _
                      (update_event J client calendar_id (S.to_string (row row_id_index)) changed)
                      w2
                      λ updated w3.
                        Grown-push S return_chunk (event_to_row J S updated names calendar_id)
                          state)
    ]

    -- Where the rows of an UPDATE are worked off without an exception, the count has grown by the
    -- number of rows with a row id, and the rows for RETURNING by as many if there is a RETURNING,
    -- and by none otherwise.
    pub sink_count :
        (rows : List (Row S)) (state : SinkState S.Value) (w : W)
        → Ensures
            (Grown return_chunk (rows_with_id S row_id_index rows) state)
            (sink J S return_chunk client calendar_id names row_id_index sets rows state w)
    unfolding sink
    sink_count [] state w = Grown-none return_chunk state
    sink_count (row ∷ rows) state w =
        bind-Ensures _ _ (Grown return_chunk (if S.is_null (row row_id_index) then 0 else 1) state)
          (sink_row J S return_chunk client calendar_id names row_id_index sets row state) w
          (row_count row state w)
          λ state' w' grown.
            Grown-then return_chunk _ (rows_with_id S row_id_index rows) state state'
              (sink J S return_chunk client calendar_id names row_id_index sets rows state' w')
              grown (sink_count rows state' w')
