-- ===== src/Scan/Filter.antt =====
-- From the filters of a query to `timeMin` and `timeMax`. The expressions are DuckDB's bound ones, as
-- far as the code looks into them.
pub mod Bounds
use duckdb_google_calendar.Common.{
  ℕ, String, List, [], ◌∷◌, ◌++◌, Option, none, some, Bool, true, false, not, Bytes, codes, ◌-◌,
  ◌==◌, string_eq, if◌then◌else◌, get_elem?,
}
use duckdb_google_calendar.Common.Int.{ℤ, pos, negsuc, ◌+ℤ◌, wrap, limit64}
use duckdb_google_calendar.Sql.{SqlLib}
use duckdb_google_calendar.Mapping.Times.{spaces_to_t}

pub data ExpressionType : Type 0 where
  compare_greaterthan compare_greaterthanorequalto compare_lessthan : ExpressionType
  compare_lessthanorequalto compare_equal compare_notequal : ExpressionType

-- `other` is every expression that the code does not look into.
mutual
  pub data Expression : Type 0 where
    conjunction_and : Expressions → Expression
    between : Expression → Expression → Expression → Expression
    comparison : ExpressionType → Expression → Expression → Expression
    column_ref : ℕ → Expression
    other : ℕ → Expression

  pub data Expressions : Type 0 where
    nil : Expressions
    cons : Expression → Expressions → Expressions

-- What `LogicalGet` says of the scan's columns: the index of each in the table, and their names.
pub record LogicalGet : Type 0 where
  pub column_ids : List ℕ
  pub names : List String

-- The part of `CalendarScanBindData` that the filters fill.
pub record BindData : Type 0 where
  pub time_min : Bytes
  pub time_max : Bytes
  pub has_lower : Bool
  pub has_upper : Bool

abbrev pub no_bounds : BindData
no_bounds = record { time_min = []; time_max = []; has_lower = false; has_upper = false }

abbrev pub one_day_micros : ℕ
one_day_micros = 86400000000

pub flip_comparison : ExpressionType → ExpressionType
flip_comparison compare_greaterthan = compare_lessthan
flip_comparison compare_greaterthanorequalto = compare_lessthanorequalto
flip_comparison compare_lessthan = compare_greaterthan
flip_comparison compare_lessthanorequalto = compare_greaterthanorequalto
flip_comparison t = t

-- The five comparisons that are looked into, and those of them that bound `start` from either side.
abbrev pub is_bounding : ExpressionType → Bool
is_bounding compare_notequal = false
is_bounding _ = true

abbrev pub bounds_below : ExpressionType → Bool
bounds_below compare_greaterthan = true
bounds_below compare_greaterthanorequalto = true
bounds_below compare_equal = true
bounds_below _ = false

abbrev pub bounds_above : ExpressionType → Bool
bounds_above compare_lessthan = true
bounds_above compare_lessthanorequalto = true
bounds_above compare_equal = true
bounds_above _ = false

unfoldable pub is_start_column : LogicalGet → Expression → Bool
is_start_column get (column_ref column_index) = elim (get_elem? get.column_ids column_index) [
  | none ↦ false
  | some base_idx ↦ elim (get_elem? get.names base_idx) [
    | none ↦ false
    | some name ↦ name == "start"
  ]
]
is_start_column get _ = false

module _ (S : SqlLib) where
  abbrev pub time_text : ℤ → Bytes
  time_text t = spaces_to_t (S.timestamp_to_string t) ++ codes "Z"

  unfoldable pub format_with_buffer : S.Value → ℤ → Bytes
  format_with_buffer val buffer = time_text (wrap limit64 (S.get_timestamp_tz val +ℤ buffer))

-- `evaluate` is `IsFoldable` with `EvaluateScalar`: `none` if the expression is not constant or if
-- its evaluation throws.
module _ (S : SqlLib) (evaluate : Expression → Option S.Value) (get : LogicalGet) where
  unfoldable pub try_fold_timestamp : Expression → Option S.Value
  try_fold_timestamp expr = elim (evaluate expr) [
    | none ↦ none
    | some folded ↦ if S.is_null folded then none else S.cast_timestamp_tz folded
  ]

  pub apply_lower_bound : S.Value → BindData → BindData
  apply_lower_bound ts b = record b {
    time_min = format_with_buffer S ts (negsuc (one_day_micros - 1));
    has_lower = true;
  }

  pub apply_upper_bound : S.Value → BindData → BindData
  apply_upper_bound ts b = record b {
    time_max = format_with_buffer S ts (pos one_day_micros);
    has_upper = true;
  }

  -- `if (TryFoldTimestamp(…, ts)) { Apply…(ts, bind_data); }`
  pub if_folded : Expression → (S.Value → BindData → BindData) → BindData → BindData
  if_folded expr apply b = elim (try_fold_timestamp expr) [ none ↦ b | some ts ↦ apply ts b ]

  -- The bounds of a comparison of `start` with a value.
  pub apply_comparison : ExpressionType → S.Value → BindData → BindData
  apply_comparison op ts b =
      let lower = if bounds_below op then apply_lower_bound ts b else b in
      if bounds_above op then apply_upper_bound ts lower else lower

  pub extract_between : Expression → Expression → Expression → BindData → BindData
  extract_between input lower upper b =
      if not (is_start_column get input)
      then b
      else if_folded upper apply_upper_bound (if_folded lower apply_lower_bound b)

  pub extract_comparison : ExpressionType → Expression → Expression → BindData → BindData
  extract_comparison t left right b =
      if not (is_bounding t)
      then b
      else if is_start_column get left
      then if_folded right (apply_comparison t) b
      else if is_start_column get right
      then if_folded left (apply_comparison (flip_comparison t)) b
      else b

  unfoldable mutual
    pub extract_time_bound : Expression → BindData → BindData
    extract_time_bound (conjunction_and children) b = extract_children children b
    extract_time_bound (between input lower upper) b = extract_between input lower upper b
    extract_time_bound (comparison t left right) b = extract_comparison t left right b
    extract_time_bound (column_ref i) b = b
    extract_time_bound (other i) b = b

    pub extract_children : Expressions → BindData → BindData
    extract_children nil b = b
    extract_children (cons e es) b = extract_children es (extract_time_bound e b)

  -- `CalendarComplexFilter`: every filter is read, and every one is kept for the engine.
  pub complex_filter : List Expression → BindData → BindData
  complex_filter [] b = b
  complex_filter (e ∷ filters) b = complex_filter filters (extract_time_bound e b)
