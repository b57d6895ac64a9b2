-- ===== src/Dml/Statement/Outcome.antt =====
-- The two ways in which a statement ends, over any server.
use duckdb_google_calendar.Common.{
  ℕ, ◌*◌, ◌<◌, ◌≤◌, List, [], ◌∷◌, ◌++◌, Bool, false, String, Bytes, Option, some, length, ◌≡◌,
  refl, ap, inl, inr, arith,
}
use duckdb_google_calendar.Common.Except.{
  Exception, Exec, Result, ok, throw, ◌>>=◌, continue, Ensures, outcome_cases,
}
use duckdb_google_calendar.Json.{JsonLib}
use duckdb_google_calendar.Sql.{SqlLib}
use duckdb_google_calendar.Mapping.Emit.{standard_vector_size}
use duckdb_google_calendar.Resources.Base.{Client}
use duckdb_google_calendar.Dml.Sink.{
  SinkState, Row, Grown, get_data, rows_with_id, rows_with_id_le, kept_le,
}
use duckdb_google_calendar.Dml.Source.{
  insert_get_data, insert_source_state, update_get_data, update_source_state, delete_get_data,
  delete_source_state,
}
use duckdb_google_calendar.Dml.Insert as Insert
use duckdb_google_calendar.Dml.Update as Update
use duckdb_google_calendar.Dml.Delete as Delete
use duckdb_google_calendar.Dml.Update.{Sets}
use duckdb_google_calendar.Dml.Insert.Rows.{insert_count}
use duckdb_google_calendar.Dml.Update.Rows.{sink_count}
use duckdb_google_calendar.Dml.Delete.Rows.{delete_count}
use duckdb_google_calendar.Dml.Statement.{
  new_sink, concat, sink-concat, result, result_rows_lem, execute_statement,
}

module _ {W R T : Type 0} (sink : List R → T → Exec W T) (step : R → T → Exec W T) where
  -- The rows before some row are done, the step for this row throws, and no row behind it is begun.
  abbrev pub StopsAt : List R → T → W → Exception → W → Type 0
  StopsAt rows state w e w' =
      (before : List R) × (row : R) × (after : List R) × (state1 : T) × (w1 : W) × (rows
        ≡ before ++ (row ∷ after))
      × (sink before state w ≡ (ok state1, w1))
      × (step row state1 w1 ≡ (throw e, w'))

  abbrev Stops : List R → T → W → Result T × W → Type 0
  Stops rows state w (ok state', w') = Unit
  Stops rows state w (throw e, w') = StopsAt rows state w e w'

  module _ (nil : (state : T) (w : W) → sink [] state w ≡ (ok state, w))
      (cons : (row : R) (rows : List R) (state : T) (w : W)
        → sink (row ∷ rows) state w ≡ (step row state >>= sink rows) w) where
    later :
        (row : R) (rows : List R) (state state' : T) (w w' : W)
        → step row state w ≡ (ok state', w')
        → (p : Result T × W) → Stops rows state' w' p
        → Stops (row ∷ rows) state w p
    later row rows state state' w w' gave (ok s, v) h = tt
    later row rows state state' w w' gave (throw e, v) h =
        let (before, r, after, s1, w1, split, done, threw) = h in
        (
          row ∷ before,
          r,
          after,
          s1,
          w1,
          ap (λ (xs : List R). row ∷ xs) split,
          rw (cons row before state w, gave, continue) done,
          threw,
        )

    sink-Stops : (rows : List R) (state : T) (w : W) → Stops rows state w (sink rows state w)
    sink-Stops [] state w = rw (nil state w) tt
    sink-Stops (row ∷ rows) state w = elim (outcome_cases (step row state w)) [
      | inl (e, w', threw) ↦
          rw (cons row rows state w, threw, continue)
            ([], row, rows, state, w, refl, nil state w, threw)
      | inr (state', w', gave) ↦
          rw (cons row rows state w, gave, continue)
            (later row rows state state' w w' gave (sink rows state' w')
              (sink-Stops rows state' w'))
    ]

module _ (S : SqlLib) (return_chunk : Bool) {W : Type 0}
    (sink : List (Row S) → SinkState S.Value → Exec W (SinkState S.Value))
    (step : Row S → SinkState S.Value → Exec W (SinkState S.Value)) where
  -- All rows are done, `n` of them count, and the result is that of the sink; or it stops at a row.
  abbrev pub Outcome : ℕ → List (Row S) → W → Result (Option (List (List S.Value))) × W → Type 0
  Outcome n rows w (ok given, w') =
      (state' : SinkState S.Value) × (sink rows new_sink w ≡ (ok state', w'))
      × (given ≡ some (result S return_chunk state'))
      × Grown return_chunk n new_sink state'
  Outcome n rows w (throw e, w') = StopsAt sink step rows new_sink w e w'

  module _ (nil : (state : SinkState S.Value) (w : W) → sink [] state w ≡ (ok state, w))
      (cons : (row : Row S) (rows : List (Row S)) (state : SinkState S.Value) (w : W)
        → sink (row ∷ rows) state w ≡ (step row state >>= sink rows) w) where
    execute_statement-Outcome :
        (n fuel : ℕ) (chunks : List (List (Row S))) (w : W)
        → n ≤ length (concat chunks)
        → Ensures (Grown return_chunk n new_sink) (sink (concat chunks) new_sink w)
        → length (concat chunks) < fuel * standard_vector_size
        → Outcome n (concat chunks) w (
            execute_statement S sink
              (get_data S return_chunk)
              (record { finished = false; offset = 0 })
              fuel
              chunks
              w)
    execute_statement-Outcome n fuel chunks w le count enough =
        rw (sink-concat sink step nil cons chunks new_sink w)
          (elim (outcome_cases (sink (concat chunks) new_sink w)) [
            | inl (e, w', threw) ↦
                let all : Stops sink step (concat chunks) new_sink w
                    (sink (concat chunks) new_sink w) =
                  sink-Stops sink step nil cons (concat chunks) new_sink w in
                let stops : Stops sink step (concat chunks) new_sink w (throw e, w') =
                  rw threw at all in
                rw (threw, continue) stops
            | inr (state', w', gave) ↦
                let grown : Grown return_chunk n new_sink state' = rw gave at count in
                rw (gave, continue)
                  (
                    state',
                    gave,
                    result_rows_lem S return_chunk fuel state' (
                        omega (
                          arith,
                          kept_le S return_chunk n (concat chunks) new_sink state' le grown,
                          enough,
                        )),
                    grown,
                  )
          ])

module _ (J : JsonLib) (S : SqlLib) (what : Exception → Bytes) {W : Type 0} (client : Client W)
    (calendar_id : Bytes) (return_chunk : Bool) (names : List String) (row_id_index : ℕ)
    (sets : Sets) where
  abbrev insert_sink : List (Row S) → SinkState S.Value → Exec W (SinkState S.Value)
  insert_sink = Insert.sink J S what client calendar_id return_chunk names

  abbrev update_sink : List (Row S) → SinkState S.Value → Exec W (SinkState S.Value)
  update_sink = Update.sink J S return_chunk client calendar_id names row_id_index sets

  abbrev delete_sink : List (Row S) → SinkState S.Value → Exec W (SinkState S.Value)
  delete_sink = Delete.sink J S client calendar_id return_chunk names row_id_index

  abbrev pub InsertOutcome : List (Row S) → W → Result (Option (List (List S.Value))) × W → Type 0
  InsertOutcome rows =
      Outcome S return_chunk insert_sink
        (Insert.sink_row J S what client calendar_id return_chunk names) (length rows) rows

  abbrev pub UpdateOutcome : List (Row S) → W → Result (Option (List (List S.Value))) × W → Type 0
  UpdateOutcome rows =
      Outcome S return_chunk update_sink
        (Update.sink_row J S return_chunk client calendar_id names row_id_index sets)
        (rows_with_id S row_id_index rows) rows

  abbrev pub DeleteOutcome : List (Row S) → W → Result (Option (List (List S.Value))) × W → Type 0
  DeleteOutcome rows =
      Outcome S return_chunk delete_sink
        (Delete.sink_row J S client calendar_id return_chunk names row_id_index)
        (rows_with_id S row_id_index rows) rows

  -- Over any server, and however the engine cuts the rows into chunks: each of the three
  -- statements ends in one of two ways, in as many calls for the result as fill more than all
  -- rows, 2048 to a call. Either all rows are done, and the result is one row with their number,
  -- for UPDATE and DELETE of those whose row id is not NULL, or with RETURNING as many rows, in
  -- the order in which they were kept. Or it throws at some row: the world is then the one in
  -- which the step for this row threw, behind the steps for the rows before it, which stay done,
  -- and nothing is done for the rows behind it.
  pub statements-Outcome :
      (fuel : ℕ) (chunks : List (List (Row S))) (w : W)
      → length (concat chunks) < fuel * standard_vector_size
      → InsertOutcome (concat chunks) w (
          execute_statement S insert_sink
            (insert_get_data S return_chunk)
            insert_source_state
            fuel
            chunks
            w)
        × UpdateOutcome (concat chunks) w (
            execute_statement S update_sink
              (update_get_data S return_chunk)
              update_source_state
              fuel
              chunks
              w)
        × DeleteOutcome (concat chunks) w (
            execute_statement S delete_sink
              (delete_get_data S return_chunk)
              delete_source_state
              fuel
              chunks
              w)
  unfolding Insert.sink Update.sink Delete.sink insert_get_data update_get_data delete_get_data
      insert_source_state update_source_state delete_source_state
  statements-Outcome fuel chunks w enough =
      let with_id_le = rows_with_id_le S row_id_index (concat chunks) in
      (
        execute_statement-Outcome S return_chunk insert_sink
            (Insert.sink_row J S what client calendar_id return_chunk names) (λ state v. refl)
            (λ row rows state v. refl) (length (concat chunks)) fuel chunks w (omega arith)
            (insert_count J S what client calendar_id return_chunk names (concat chunks) new_sink w)
            enough,
        execute_statement-Outcome S return_chunk update_sink
            (Update.sink_row J S return_chunk client calendar_id names row_id_index sets)
            (λ state v. refl) (λ row rows state v. refl)
            (rows_with_id S row_id_index (concat chunks)) fuel chunks w with_id_le
            (sink_count J S client calendar_id names row_id_index sets return_chunk (concat chunks)
              new_sink w)
            enough,
        execute_statement-Outcome S return_chunk delete_sink
            (Delete.sink_row J S client calendar_id return_chunk names row_id_index)
            (λ state v. refl) (λ row rows state v. refl)
            (rows_with_id S row_id_index (concat chunks)) fuel chunks w with_id_le
            (delete_count J S client calendar_id return_chunk names row_id_index (concat chunks)
              new_sink w)
            enough,
      )
