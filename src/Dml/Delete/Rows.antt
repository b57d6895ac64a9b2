-- ===== src/Dml/Delete/Rows.antt =====
-- The count and the kept rows of a DELETE.
use duckdb_google_calendar.Common.{
  ℕ, ◌+◌, List, [], ◌∷◌, length, length-append, Bool, Bool-cases, inl, inr, String, Bytes,
  if◌then◌else◌, ◌≡◌, refl, arith,
}
use duckdb_google_calendar.Common.Except.{Ensures, bind-Ensures, bind-Ensures_any}
use duckdb_google_calendar.Json.{JsonLib}
use duckdb_google_calendar.Sql.{SqlLib}
use duckdb_google_calendar.Mapping.Read.{event_to_row}
use duckdb_google_calendar.Resources.Base.{Client}
use duckdb_google_calendar.Resources.Events.{get_event, delete_event}
use duckdb_google_calendar.Dml.Sink.{SinkState, Row, Grown, Grown-none, Grown-then, rows_with_id}
use duckdb_google_calendar.Dml.Delete.{fetch_row, sink_row, sink}

module _ (J : JsonLib) (S : SqlLib) {W : Type 0} (client : Client W) (calendar_id : Bytes)
    (return_chunk : Bool) (names : List String) (row_id_index : ℕ) where
  -- The state between the fetch and the count.
  abbrev Fetched : SinkState S.Value → SinkState S.Value → Type 0
  Fetched state kept =
      (kept.count ≡ state.count)
      × (length kept.returned ≡ length state.returned + (if return_chunk then 1 else 0))

  fetch_count :
      (id : Bytes) (state : SinkState S.Value) (w : W)
      → Ensures
          (Fetched state)
          (fetch_row J S client calendar_id return_chunk names row_id_index id state w)
  unfolding fetch_row
  fetch_count id state w = elim (Bool-cases return_chunk) [
    | inl keep ↦
        rw (keep, fetch_row)
          (bind-Ensures_any _ _ (get_event J client calendar_id id) w λ event w1.
            (refl, length-append state.returned (event_to_row J S event names calendar_id ∷ [])))
    | inr plain ↦ rw (plain, fetch_row) (refl, omega arith)
  ]

  row_count :
      (row : Row S) (state : SinkState S.Value) (w : W)
      → Ensures
          (Grown return_chunk (if S.is_null (row row_id_index) then 0 else 1) state)
          (sink_row J S client calendar_id return_chunk names row_id_index row state w)
  unfolding sink_row
  row_count row state w = elim (Bool-cases (S.is_null (row row_id_index))) [
    | inl skip ↦ rw (skip, sink_row) (Grown-none return_chunk state)
    | inr there ↦
        rw (there, sink_row)
          (bind-Ensures _ _ (Fetched state)
            (fetch_row J S client calendar_id return_chunk names row_id_index
              (S.to_string (row row_id_index)) state)
            w (fetch_count (S.to_string (row row_id_index)) state w)
            λ kept w1 (count, more).
              bind-Ensures_any _ _
                (delete_event J client calendar_id (S.to_string (row row_id_index))) w1
                λ done w2. (omega (arith, count), more))
  ]

  -- Where the rows of a DELETE are worked off without an exception, the count has grown by the
  -- number of rows with a row id, and the rows for RETURNING by as many if there is a RETURNING,
  -- and by none otherwise.
  pub delete_count :
      (rows : List (Row S)) (state : SinkState S.Value) (w : W)
      → Ensures
          (Grown return_chunk (rows_with_id S row_id_index rows) state)
          (sink J S client calendar_id return_chunk names row_id_index rows state w)
  unfolding sink
  delete_count [] state w = Grown-none return_chunk state
  delete_count (row ∷ rows) state w =
      bind-Ensures _ _ (Grown return_chunk (if S.is_null (row row_id_index) then 0 else 1) state)
        (sink_row J S client calendar_id return_chunk names row_id_index row state) w
        (row_count row state w)
        λ state' w' grown.
          Grown-then return_chunk _ (rows_with_id S row_id_index rows) state state'
            (sink J S client calendar_id return_chunk names row_id_index rows state' w') grown
            (delete_count rows state' w')
