-- ===== src/Dml/Merge.antt =====
-- src/storage/calendar_merge.cpp: the operator of each action of a MERGE.
use mathlib.Core.Option
use mathlib.Core.Path.{ap₂}
use duckdb_google_calendar.Common.{
  ℕ, zero, suc, List, [], ◌∷◌, map, Option, none, some, Bool, if◌then◌else◌, get_elem?, ◌≡◌, ◌≢◌,
  refl, ◌∙◌, ap, All, Option-cases, inl, inr,
}

-- `merge_other` is every action that the source does not name.
pub data MergeActionType : Type 0 where
  merge_update merge_delete merge_insert merge_error merge_do_nothing merge_other : MergeActionType

-- `E` is the engine's expressions and `T` its types. A pointer whose object was moved away is `none`.
module _ (E T : Type 0) where
  -- The members of `BoundMergeIntoAction`. The map gives the index of an expression for each
  -- physical column, or `none` for INVALID_INDEX.
  pub record BoundMergeIntoAction : Type 0 where
    pub action_type : MergeActionType
    pub condition : Option E
    pub expressions : List (Option E)
    pub columns : List ℕ
    pub column_index_map : List (Option ℕ)

  -- The members of `LogicalMergeInto` that are read. A physical column of the table is the index of
  -- its storage with its own.
  pub record LogicalMergeInto : Type 0 where
    pub types : List T
    pub return_chunk : Bool
    pub row_id_start : ℕ
    pub physical_columns : List (ℕ × ℕ)
    pub bound_defaults : List E

  pub data CalendarOperator : Type 0 where
    calendar_update : List T → List ℕ → List ℕ → Bool → CalendarOperator
    calendar_delete : List T → ℕ → Bool → CalendarOperator
    calendar_insert : List T → Bool → CalendarOperator

  pub record MergeIntoOperator : Type 0 where
    pub action_type : MergeActionType
    pub condition : Option E
    pub op : Option CalendarOperator
    pub expressions : List (Option E)

-- `return_types.pop_back()`
unfoldable pub pop_back : {A : Type 0} → List A → List A
pop_back [] = []
pop_back (x ∷ []) = []
pop_back (x ∷ y ∷ xs) = x ∷ pop_back (y ∷ xs)

-- The index of the expression of a column; the source keeps the indices in range.
abbrev pub mapped_index : List (Option ℕ) → ℕ × ℕ → Option ℕ
mapped_index index_map (storage, physical) = Option.get_or (get_elem? index_map physical) none

-- No expression is given to two of the columns.
abbrev pub Distinct : List (Option ℕ) → List (ℕ × ℕ) → Type 0
Distinct index_map [] = Unit
Distinct index_map (col ∷ cols) =
    ((i : ℕ)
      → mapped_index index_map col ≡ some i
      → All (λ other. mapped_index index_map other ≢ some i) cols)
    × Distinct index_map cols

module _ {E : Type 0} where
  -- `std::move(expressions[i])`, with what is left.
  unfoldable pub move_at : ℕ → List (Option E) → Option E × List (Option E)
  move_at i [] = (none, [])
  move_at zero (e ∷ es) = (e, none ∷ es)
  move_at (suc i) (e ∷ es) = ((move_at i es).0, e ∷ (move_at i es).1)

  -- The loop over the columns: a copy of the default, or the expression moved out of the action.
  unfoldable pub new_expressions :
      List (Option ℕ) → List E → List (ℕ × ℕ) → List (Option E) → List (Option E)
  new_expressions index_map defaults [] es = []
  new_expressions index_map defaults (col ∷ cols) es = elim (mapped_index index_map col) [
    | none ↦ get_elem? defaults col.0 ∷ new_expressions index_map defaults cols es
    | some i ↦ (move_at i es).0 ∷ new_expressions index_map defaults cols (move_at i es).1
  ]

  unfoldable pub insert_expressions :
      List (Option ℕ) → List E → List (ℕ × ℕ) → List (Option E) → List (Option E)
  unfolding new_expressions
  insert_expressions [] defaults cols es = es
  insert_expressions (m ∷ index_map) defaults cols es =
      new_expressions (m ∷ index_map) defaults cols es

  module _ {T : Type 0} (index : Option E → ℕ) where
    -- `index` is that of a `BoundReferenceExpression`. `none` is an InternalException.
    unfoldable pub plan_calendar_merge_into_action :
        LogicalMergeInto E T → BoundMergeIntoAction E T → Option (MergeIntoOperator E T)
    plan_calendar_merge_into_action op action =
        let return_types = if op.return_chunk then pop_back op.types else op.types in
        let result : MergeIntoOperator E T = record {
          action_type = action.action_type;
          condition = action.condition;
          op = none;
          expressions = [];
        } in
        elim action.action_type [
          | merge_update ↦ some (record result {
            op = some (
                calendar_update return_types action.columns (map index action.expressions)
                  op.return_chunk);
          })
          | merge_delete ↦ some (record result {
            op = some (calendar_delete return_types op.row_id_start op.return_chunk);
          })
          | merge_insert ↦ some (record result {
            op = some (calendar_insert return_types op.return_chunk);
            expressions =
                insert_expressions action.column_index_map op.bound_defaults op.physical_columns
                  action.expressions;
          })
          | merge_error ↦ some (record result { expressions = action.expressions })
          | merge_do_nothing ↦ some result
          | merge_other ↦ none
        ]

  -- What is wanted for a column, from the expressions as they were given.
  abbrev pub read_at : ℕ → List (Option E) → Option E
  read_at i es = Option.get_or (get_elem? es i) none

  abbrev pub wanted : List (Option ℕ) → List E → List (Option E) → ℕ × ℕ → Option E
  wanted index_map defaults es col = elim (mapped_index index_map col) [
    | none ↦ get_elem? defaults col.0
    | some i ↦ read_at i es
  ]

  move-read : (i : ℕ) (es : List (Option E)) → (move_at i es).0 ≡ read_at i es
  unfolding move_at
  move-read i [] = refl
  move-read zero (e ∷ es) = refl
  move-read (suc i) (e ∷ es) = move-read i es

  move-other : (i j : ℕ) (es : List (Option E)) → j ≢ i → read_at j (move_at i es).1 ≡ read_at j es
  unfolding move_at
  move-other i j [] h = refl
  move-other zero zero (e ∷ es) h = absurd (h refl)
  move-other zero (suc j) (e ∷ es) h = refl
  move-other (suc i) zero (e ∷ es) h = refl
  move-other (suc i) (suc j) (e ∷ es) h = move-other i j es (λ e. h (rw e refl))

  -- The expressions that are still to be given are those of the action.
  abbrev Intact : List (Option ℕ) → List (Option E) → List (Option E) → List (ℕ × ℕ) → Type 0
  Intact index_map es given cols =
      All (λ col. (i : ℕ) → mapped_index index_map col ≡ some i → read_at i given ≡ read_at i es)
        cols

  Intact-move :
      (index_map : List (Option ℕ)) (es given : List (Option E)) (cols : List (ℕ × ℕ)) (i : ℕ)
      → All (λ other. mapped_index index_map other ≢ some i) cols
      → Intact index_map es given cols
      → Intact index_map es (move_at i given).1 cols
  Intact-move index_map es given [] i _ _ = tt
  Intact-move index_map es given (col ∷ cols) i (apart, others) (same, rest) = (
    λ j e. move-other i j given (λ p. apart (e ∙ ap some p)) ∙ same j e,
    Intact-move index_map es given cols i others rest,
  )

  new_expressions_lem :
      (index_map : List (Option ℕ)) (defaults : List E) (es given : List (Option E))
      (cols : List (ℕ × ℕ))
      → Distinct index_map cols
      → Intact index_map es given cols
      → new_expressions index_map defaults cols given ≡ map (wanted index_map defaults es) cols
  unfolding new_expressions
  new_expressions_lem index_map defaults es given [] _ _ = refl
  new_expressions_lem index_map defaults es given (col ∷ cols) (fresh, distinct) (same, rest) =
      elim (Option-cases (mapped_index index_map col)) [
        | inl unmapped ↦
            rw (unmapped, new_expressions, wanted)
              (ap (λ xs. get_elem? defaults col.0 ∷ xs)
                (new_expressions_lem index_map defaults es given cols distinct rest))
        | inr (i, mapped) ↦
            rw (mapped, new_expressions, wanted)
              (ap₂ (λ x xs. x ∷ xs) (move-read i given ∙ same i mapped)
                (new_expressions_lem index_map defaults es (move_at i given).1 cols distinct
                  (Intact-move index_map es given cols i (fresh i mapped) rest)))
      ]

  Intact-self :
      (index_map : List (Option ℕ)) (es : List (Option E)) (cols : List (ℕ × ℕ))
      → Intact index_map es es cols
  Intact-self index_map es [] = tt
  Intact-self index_map es (col ∷ cols) = (λ i _. refl, Intact-self index_map es cols)

  insert_expressions-wanted :
      (m : Option ℕ) (index_map : List (Option ℕ)) (defaults : List E) (cols : List (ℕ × ℕ))
      (es : List (Option E))
      → Distinct (m ∷ index_map) cols
      → insert_expressions (m ∷ index_map) defaults cols es
        ≡ map (wanted (m ∷ index_map) defaults es) cols
  unfolding insert_expressions
  insert_expressions-wanted m index_map defaults cols es distinct =
      new_expressions_lem (m ∷ index_map) defaults es es cols distinct
        (Intact-self (m ∷ index_map) es cols)

  -- An INSERT action of a MERGE whose map of columns is not empty, and gives no expression to two
  -- columns, is planned with the condition of the action and with one expression for each physical
  -- column of the table, in the order of the columns: the one that the map gives it, as it stood
  -- in the action, though expressions are moved out of it one by one, or else the default of the
  -- column.
  pub plan-wanted :
      {T : Type 0} (index : Option E → ℕ) (op : LogicalMergeInto E T) (condition : Option E)
      (es : List (Option E)) (columns : List ℕ) (m : Option ℕ) (index_map : List (Option ℕ))
      → Distinct (m ∷ index_map) op.physical_columns
      → (r : MergeIntoOperator E T) × (plan_calendar_merge_into_action index op (record {
        action_type = MergeActionType.merge_insert;
        condition = condition;
        expressions = es;
        columns = columns;
        column_index_map = m ∷ index_map;
      })
          ≡ some r)
        × (r.condition ≡ condition)
        × (r.expressions ≡ map (wanted (m ∷ index_map) op.bound_defaults es) op.physical_columns)
  unfolding plan_calendar_merge_into_action
  plan-wanted index op condition es columns m index_map distinct = (
    _,
    refl,
    refl,
    insert_expressions-wanted m index_map op.bound_defaults op.physical_columns es distinct,
  )
