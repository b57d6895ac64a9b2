-- ===== src/Dml/Statement.antt =====
-- A statement as a whole: the engine hands the rows to a sink of src/storage/calendar_insert.cpp,
-- calendar_update.cpp or calendar_delete.cpp in chunks, and then asks its source for chunks of the
-- result until it says FINISHED.
pub mod Delete
pub mod Update
pub mod Insert
pub mod Outcome
use mathlib.Core.Option
use duckdb_google_calendar.Common.{
  ℕ, zero, suc, ◌*◌, ◌<◌, List, [], ◌∷◌, ◌++◌, Bool, true, false, if◌then◌else◌, length, arith,
  Option, none, some, ◌≡◌, refl, ◌∙◌, inl, inr,
}
use duckdb_google_calendar.Common.Except.{Exec, ok, pure, ◌>>=◌, continue, outcome_cases}
use duckdb_google_calendar.Common.Int.{pos}
use duckdb_google_calendar.Sql.{SqlLib}
use duckdb_google_calendar.Mapping.Emit.{standard_vector_size, drain, drain-returned}
use duckdb_google_calendar.Dml.Sink.{SinkState, Row, SourceState, get_data}

abbrev pub new_sink : {V : Type 0} → SinkState V
new_sink = record { count = 0; returned = [] }

abbrev pub concat : {A : Type 0} → List (List A) → List A
concat [] = []
concat (chunk ∷ chunks) = chunk ++ concat chunks

module _ {W R T : Type 0} (sink : List R → T → Exec W T) where
  -- One call of `Sink` for each chunk.
  abbrev pub sink_chunks : List (List R) → T → Exec W T
  sink_chunks [] state = pure state
  sink_chunks (chunk ∷ chunks) state = sink chunk state >>= λ state'. sink_chunks chunks state'

  -- The sink does `step` for each row.
  module _ (step : R → T → Exec W T) (nil : (state : T) (w : W) → sink [] state w ≡ (ok state, w))
      (cons : (row : R) (rows : List R) (state : T) (w : W)
        → sink (row ∷ rows) state w ≡ (step row state >>= sink rows) w) where
    sink-append :
        (xs ys : List R) (state : T) (w : W)
        → sink (xs ++ ys) state w ≡ (sink xs state >>= sink ys) w
    sink-append [] ys state w = rw (nil state w, continue) refl
    sink-append (row ∷ rows) ys state w =
        rw (cons row (rows ++ ys) state w, cons row rows state w)
          (elim (outcome_cases (step row state w)) [
            | inl (e, w', threw) ↦ rw (threw, continue) refl
            | inr (state', w', gave) ↦ rw (gave, continue) (sink-append rows ys state' w')
          ])

    pub sink-concat :
        (chunks : List (List R)) (state : T) (w : W)
        → sink_chunks chunks state w ≡ sink (concat chunks) state w
    sink-concat [] state w = rw (nil state w) refl
    sink-concat (chunk ∷ chunks) state w =
        rw (sink-append chunk (concat chunks) state w) (elim (outcome_cases (sink chunk state w)) [
          | inl (e, w', threw) ↦ rw (threw, continue) refl
          | inr (state', w', gave) ↦ rw (gave, continue) (sink-concat chunks state' w')
        ])

-- The engine's calls of a source, at most `fuel` of them; `none` if it is not FINISHED then.
abbrev pub result_rows :
    {V : Type 0}
    → (SourceState → List (List V) × SourceState × Bool)
    → ℕ
    → SourceState
    → Option (List (List V))
result_rows get zero source = none
result_rows get (suc fuel) source =
    let (chunk, source', finished) = get source in
    let rest = Option.map (λ rows. chunk ++ rows) (result_rows get fuel source') in
    if finished then some chunk else rest

module _ (S : SqlLib) where
  -- The result of a statement: the kept rows, or one row with the count.
  abbrev pub result : Bool → SinkState S.Value → List (List S.Value)
  result return_chunk state =
      if return_chunk then state.returned else (S.bigint (pos state.count) ∷ []) ∷ []

  result_rows-drain :
      (fuel : ℕ) (state : SinkState S.Value) (source : SourceState)
      → result_rows (get_data S true state) fuel source ≡ drain fuel state.returned source.offset
  unfolding get_data drain
  result_rows-drain zero state source = refl
  result_rows-drain (suc fuel) state source =
      rw (result_rows-drain fuel state (get_data S true state source).1) refl

  pub result_rows_lem :
      (return_chunk : Bool) (fuel : ℕ) (state : SinkState S.Value)
      → length state.returned < fuel * standard_vector_size
      → result_rows (get_data S return_chunk state) fuel (record { finished = false; offset = 0 })
        ≡ some (result return_chunk state)
  unfolding get_data
  result_rows_lem true fuel state enough =
      result_rows-drain fuel state (record { finished = false; offset = 0 })
      ∙ drain-returned fuel state.returned enough
  result_rows_lem false zero state enough = absurd (omega arith)
  result_rows_lem false (suc fuel) state enough = refl

  -- A statement from a new sink on: all chunks of rows, and then the result.
  module _ {W : Type 0} (sink : List (Row S) → SinkState S.Value → Exec W (SinkState S.Value))
      (get : SinkState S.Value → SourceState → List (List S.Value) × SourceState × Bool)
      (start : SourceState) where
    abbrev pub execute_statement : ℕ → List (List (Row S)) → Exec W (Option (List (List S.Value)))
    execute_statement fuel chunks =
        sink_chunks sink chunks new_sink >>= λ state. pure (result_rows (get state) fuel start)
