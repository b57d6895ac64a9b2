-- ===== src/Mapping/Write/Cases.antt =====
-- The kinds of columns, and what `ApplyColumn` is at each.
use duckdb_google_calendar.Common.{
  String, Bool, true, false, not, ◌||◌, none, some, Option-cases, Bool-cases, inl, inr, ◌≡◌, ◌==◌,
  string_eq, if◌then◌else◌,
}
use duckdb_google_calendar.Common.Except.{Result, ok, bind, json_call}
use duckdb_google_calendar.Json.{JsonLib}
use duckdb_google_calendar.Sql.{SqlLib}
use duckdb_google_calendar.Mapping.Columns.{
  find_key, writable_string_keys, writable_bool_keys, writable_json_keys,
}
use duckdb_google_calendar.Mapping.Times.{set_json_passthrough}
use duckdb_google_calendar.Mapping.Write.{apply_nullable, apply_special, apply_column}

abbrev pub is_time : String → Bool
is_time name = name == "start" || name == "end"

-- The tests of `ApplyColumn` up to the one that succeeds.
pub data Column (name : String) : Type 0 where
  event_id : (name == "event_id") ≡ true → Column name
  text :
      (key : String)
      → (name == "event_id") ≡ false
      → find_key name writable_string_keys ≡ some key
      → Column name
  flag :
      (key : String)
      → (name == "event_id") ≡ false
      → find_key name writable_string_keys ≡ none
      → find_key name writable_bool_keys ≡ some key
      → Column name
  raw :
      (key : String)
      → (name == "event_id") ≡ false
      → find_key name writable_string_keys ≡ none
      → find_key name writable_bool_keys ≡ none
      → find_key name writable_json_keys ≡ some key
      → Column name
  special :
      (name == "event_id") ≡ false
      → find_key name writable_string_keys ≡ none
      → find_key name writable_bool_keys ≡ none
      → find_key name writable_json_keys ≡ none
      → Column name

pub column : (name : String) → Column name
column name = elim (Bool-cases (name == "event_id")) [
  | inl id ↦ event_id id
  | inr e ↦ elim (Option-cases (find_key name writable_string_keys)) [
    | inr (key, s) ↦ text key e s
    | inl s ↦ elim (Option-cases (find_key name writable_bool_keys)) [
      | inr (key, b) ↦ flag key e s b
      | inl b ↦ elim (Option-cases (find_key name writable_json_keys)) [
        | inr (key, j) ↦ raw key e s b j
        | inl j ↦ special e s b j
      ]
    ]
  ]
]

module _ (J : JsonLib) (S : SqlLib) (event : J.Json) (name : String) (val : S.Value)
    (all_day update : Bool) where
  abbrev applied : Result (J.Json × Bool)
  applied = apply_column J S event name val all_day update

  -- What each kind of column applies.
  abbrev pub apply_as : Column name → Result (J.Json × Bool)
  apply_as (event_id _) =
      if update
      then ok (event, false)
      else if not (S.is_null val)
      then bind (json_call (J.put event "id" (J.from_string (S.to_string val)))) (λ e. ok (e, true))
      else ok (event, true)
  apply_as (text key _ _) =
      apply_nullable J S event key val update
        (λ e. json_call (J.put e key (J.from_string (S.to_string val))))
  apply_as (flag key _ _ _) =
      apply_nullable J S event key val update
        (λ e. json_call (J.put e key (J.from_bool (S.get_boolean val))))
  apply_as (raw key _ _ _ _) =
      apply_nullable J S event key val update (λ e. ok (set_json_passthrough J S e key val))
  apply_as (special _ _ _ _) = apply_special J S event name val all_day update

  pub apply_as_lem : (c : Column name) → applied ≡ apply_as c
  unfolding apply_column
  apply_as_lem (event_id e) = rw e
  apply_as_lem (text key e s) = rw (e, s)
  apply_as_lem (flag key e s b) = rw (e, s, b)
  apply_as_lem (raw key e s b j) = rw (e, s, b, j)
  apply_as_lem (special e s b j) = rw (e, s, b, j)
