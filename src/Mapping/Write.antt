-- ===== src/Mapping/Write.antt =====
-- `ApplyColumn`, `RowAllDay`, `RowToEvent` and `ApplySet`.
pub mod Cases
pub mod Table
pub mod Laws
pub mod Held
use duckdb_google_calendar.Common.{
  ℕ, ◌+◌, List, [], ◌∷◌, Option, none, some, Bool, true, false, not, ◌&&◌, ◌||◌, String, Bytes,
  codes, ◌==◌, string_eq, if◌then◌else◌,
}
use duckdb_google_calendar.Common.Except.{Result, ok, throw, bind, json_call, invalid_input}
use duckdb_google_calendar.Json.{JsonLib}
use duckdb_google_calendar.Sql.{SqlLib}
use duckdb_google_calendar.Mapping.Columns.{
  find_key, writable_string_keys, writable_bool_keys, writable_json_keys,
}
use duckdb_google_calendar.Mapping.Times.{set_json_passthrough, time_node, reencode_time_node}

module _ (J : JsonLib) (S : SqlLib) where
  -- What every writable column does with NULL: PATCH semantics erase the key, INSERT leaves it out.
  abbrev pub apply_nullable :
      J.Json → String → S.Value → Bool → (J.Json → Result J.Json) → Result (J.Json × Bool)
  apply_nullable event key val update write =
      bind
        (if S.is_null val
          then (if update then json_call (J.remove event key) else ok event)
          else write event)
        (λ changed. ok (changed, true))

  -- What UPDATE does with `all_day`: the nodes that it finds are encoded anew.
  unfoldable pub reencode_both : J.Json → Bool → Result (J.Json × Bool)
  reencode_both event all_day =
      bind (reencode_time_node J event "start" all_day)
        (λ e. bind (reencode_time_node J e "end" all_day) (λ e'. ok (e', true)))

  -- The last tests of `ApplyColumn`.
  unfoldable pub apply_special : J.Json → String → S.Value → Bool → Bool → Result (J.Json × Bool)
  unfolding reencode_both
  apply_special event name val all_day update =
      if name == "start" || name == "end"
      then apply_nullable event name val update
          (λ e. bind (time_node J S val all_day) (λ node. json_call (J.put e name node)))
      else if name == "all_day"
      then (if update then reencode_both event all_day else ok (event, true))
      else ok (event, false)

  -- The event after the call, and whether the column may be written.
  unfoldable pub apply_column : J.Json → String → S.Value → Bool → Bool → Result (J.Json × Bool)
  unfolding apply_special
  apply_column event name val all_day update =
      if name == "event_id"
      then (if update
          then ok (event, false)
          else if not (S.is_null val)
          then bind (json_call (J.put event "id" (J.from_string (S.to_string val))))
              (λ e. ok (e, true))
          else ok (event, true))
      else elim (find_key name writable_string_keys) [
        | some key ↦
            apply_nullable event key val update
              (λ e. json_call (J.put e key (J.from_string (S.to_string val))))
        | none ↦ elim (find_key name writable_bool_keys) [
          | some key ↦
              apply_nullable event key val update
                (λ e. json_call (J.put e key (J.from_bool (S.get_boolean val))))
          | none ↦ elim (find_key name writable_json_keys) [
            | some key ↦
                apply_nullable event key val update (λ e. ok (set_json_passthrough J S e key val))
            | none ↦ apply_special event name val all_day update
          ]
        ]
      ]

  -- `cell c` is `chunk.GetValue(c, row)`; the names from column `c` on.
  unfoldable pub row_all_day : (ℕ → S.Value) → ℕ → List String → Bool
  row_all_day cell c [] = false
  row_all_day cell c (name ∷ names) =
      if name == "all_day"
      then not (S.is_null (cell c)) && S.get_boolean (cell c)
      else row_all_day cell (c + 1) names

  unfoldable pub apply_row : (ℕ → S.Value) → ℕ → List String → Bool → J.Json → Result J.Json
  apply_row cell c [] all_day event = ok event
  apply_row cell c (name ∷ names) all_day event =
      bind (apply_column event name (cell c) all_day false)
        (λ (e, _). apply_row cell (c + 1) names all_day e)

  unfoldable pub row_to_event : (ℕ → S.Value) → List String → Result J.Json
  unfolding apply_row row_all_day
  row_to_event cell names = apply_row cell 0 names (row_all_day cell 0 names) J.null

  unfoldable pub apply_set : J.Json → String → S.Value → Bool → Result J.Json
  apply_set event name val all_day =
      bind (apply_column event name val all_day true) (λ (e, writable).
        if writable
        then ok e
        else throw (
            invalid_input "google_calendar: column \"%s\" is read-only and cannot be updated"
              (codes name ∷ [])))
