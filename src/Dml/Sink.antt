-- ===== src/Dml/Sink.antt =====
-- What the global states of the three sinks have in common, and what their sources give.
use duckdb_google_calendar.Common.{
  ℕ, ◌+◌, ◌≤◌, List, [], ◌∷◌, ◌++◌, Bool, true, false, if◌then◌else◌, length, length-append, ◌≡◌,
  refl, arith,
}
use duckdb_google_calendar.Common.Except.{Result, ok, throw, Ensures}
use duckdb_google_calendar.Common.Int.{pos}
use duckdb_google_calendar.Sql.{SqlLib}
use duckdb_google_calendar.Mapping.Emit.{get_returned}

-- `insert_count`, `update_count` or `delete_count`, and the rows for RETURNING.
pub record SinkState (V : Type 0) : Type 0 where
  pub count : ℕ
  pub returned : List (List V)

pub record SourceState : Type 0 where
  pub finished : Bool
  pub offset : ℕ

module _ (S : SqlLib) where
  abbrev pub Row : Type 0
  Row = ℕ → S.Value

  -- A row is done: it is counted, and kept for RETURNING.
  abbrev pub push_row : Bool → List S.Value → SinkState S.Value → SinkState S.Value
  push_row return_chunk row state = record {
    count = state.count + 1;
    returned = if return_chunk then state.returned ++ (row ∷ []) else state.returned;
  }

  -- `GetDataInternal`: the chunk, the new state, and whether it is FINISHED.
  unfoldable pub get_data :
      Bool → SinkState S.Value → SourceState → List (List S.Value) × SourceState × Bool
  get_data return_chunk sink state =
      if return_chunk
      then (let (chunk, offset, finished) = get_returned sink.returned state.offset in
          (chunk, record state { offset = offset }, finished))
      else if state.finished
      then ([], state, true)
      else ((S.bigint (pos sink.count) ∷ []) ∷ [], record state { finished = true }, true)

-- The state of a sink after `n` more rows.
module _ {V : Type 0} (return_chunk : Bool) where
  abbrev pub Grown : ℕ → SinkState V → SinkState V → Type 0
  Grown n state state' =
      (state'.count ≡ state.count + n)
      × (length state'.returned ≡ length state.returned + (if return_chunk then n else 0))

  pub Grown-none : (state : SinkState V) → Grown 0 state state
  Grown-none state = (omega arith, ground arith)

  pub Grown-trans :
      (m n : ℕ) (state state' state'' : SinkState V)
      → Grown m state state'
      → Grown n state' state''
      → Grown (m + n) state state''
  Grown-trans m n state state' state'' (count, kept) (count', kept') =
      (omega (arith, count, count'), ground (arith, kept, kept'))

  -- One more step, and the rest of a run.
  pub Grown-then :
      {W : Type 0} (m n : ℕ) (state state' : SinkState V) (p : Result (SinkState V) × W)
      → Grown m state state'
      → Ensures (Grown n state') p
      → Ensures (Grown (m + n) state) p
  Grown-then m n state state' (ok state'', w) first rest =
      Grown-trans m n state state' state'' first rest
  Grown-then m n state state' (throw e, w) first rest = tt

module _ (S : SqlLib) where
  pub Grown-push :
      (return_chunk : Bool) (row : List S.Value) (state : SinkState S.Value)
      → Grown return_chunk 1 state (push_row S return_chunk row state)
  Grown-push true row state = (refl, length-append state.returned (row ∷ []))
  Grown-push false row state = (refl, omega arith)

  -- The rows of a chunk whose row id is not NULL.
  abbrev pub rows_with_id : ℕ → List (Row S) → ℕ
  rows_with_id row_id_index [] = 0
  rows_with_id row_id_index (row ∷ rows) =
      (if S.is_null (row row_id_index) then 0 else 1) + rows_with_id row_id_index rows

  pub rows_with_id_le :
      (row_id_index : ℕ) (rows : List (Row S)) → rows_with_id row_id_index rows ≤ length rows
  rows_with_id_le row_id_index [] = omega arith
  rows_with_id_le row_id_index (row ∷ rows) = ground (arith, rows_with_id_le row_id_index rows)

  -- No more rows are kept than were worked off.
  pub kept_le :
      (return_chunk : Bool) (n : ℕ) (rows : List (Row S)) (state state' : SinkState S.Value)
      → n ≤ length rows
      → Grown return_chunk n state state'
      → length state'.returned ≤ length state.returned + length rows
  kept_le true n rows state state' le (count, kept) = omega (arith, le, kept)
  kept_le false n rows state state' le (count, kept) = omega (arith, le, kept)

  pub kept_le-with_id :
      (return_chunk : Bool) (row_id_index : ℕ) (rows : List (Row S))
      (state state' : SinkState S.Value)
      → Grown return_chunk (rows_with_id row_id_index rows) state state'
      → length state'.returned ≤ length state.returned + length rows
  kept_le-with_id return_chunk row_id_index rows state state' =
      kept_le return_chunk (rows_with_id row_id_index rows) rows state state'
        (rows_with_id_le row_id_index rows)
