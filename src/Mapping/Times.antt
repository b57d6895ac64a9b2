-- ===== src/Mapping/Times.antt =====
-- The encoding of times, and the JSON nodes of `start` and `end`.
pub mod Laws
use mathlib.Core.Option
use duckdb_google_calendar.Common.{
  ℕ, List, [], ◌∷◌, ◌++◌, map, Option, none, some, Bool, true, false, not, ◌&&◌, String, Bytes,
  codes, is_empty, ◌==◌, nat_eq, if◌then◌else◌, take, length,
}
use duckdb_google_calendar.Common.Except.{Result, ok, throw, bind, json_call}
use duckdb_google_calendar.Common.Int.{ℤ}
use duckdb_google_calendar.Json.{JsonLib}
use duckdb_google_calendar.Sql.{SqlLib}

-- `std::replace(s.begin(), s.end(), ' ', 'T')`
abbrev pub spaces_to_t : Bytes → Bytes
spaces_to_t = map (λ c. if c == b' ' then b'T' else c)

module _ (S : SqlLib) where
  unfoldable pub format_rfc3339 : S.Value → Bytes
  format_rfc3339 val = spaces_to_t (S.timestamp_to_string (S.get_timestamp_tz val)) ++ codes "Z"

  unfoldable pub format_date : S.Value → Bytes
  format_date val = take 10 (S.timestamp_to_string (S.get_timestamp_tz val))

module _ (J : JsonLib) where
  abbrev pub has : J.Json → String → Bool
  has j key = elim (J.member j key) [ none ↦ false | some _ ↦ true ]

  -- `node.contains(key) && node[key].is_string()` with the string.
  abbrev pub text_member : J.Json → String → Option Bytes
  text_member node key = Option.bind (J.member node key) J.as_string

  -- The string of a time node: `dateTime`, or else `date`.
  unfoldable pub raw_time : J.Json → Option Bytes
  raw_time node = elim (text_member node "dateTime") [
    | some raw ↦ some raw
    | none ↦ text_member node "date"
  ]

  unfoldable pub existing_all_day : J.Json → Bool
  existing_all_day event = elim (J.member event "start") [
    | none ↦ false
    | some start ↦ J.is_object start && has start "date" && not (has start "dateTime")
  ]

  -- The node that is built from the string of the old one.
  unfoldable pub rebuild_time : Bytes → Bool → Result J.Json
  rebuild_time raw all_day =
      if all_day
      then json_call (J.put J.null "date" (J.from_string (take 10 raw)))
      else json_call (
          J.put J.null "dateTime"
            (J.from_string (if length raw == 10 then raw ++ codes "T00:00:00Z" else raw)))

  unfoldable pub reencode_time_node : J.Json → String → Bool → Result J.Json
  unfolding rebuild_time raw_time
  reencode_time_node event key all_day = elim (J.member event key) [
    | none ↦ ok event
    | some node ↦ if not (J.is_object node) then ok event else elim (raw_time node) [
      | none ↦ ok event
      | some raw ↦ bind (rebuild_time raw all_day) (λ rebuilt. json_call (J.put event key rebuilt))
    ]
  ]

  module _ (S : SqlLib) where
    unfoldable pub time_node : S.Value → Bool → Result J.Json
    unfolding format_date format_rfc3339
    time_node val all_day =
        if all_day
        then json_call (J.put J.null "date" (J.from_string (format_date S val)))
        else json_call (J.put J.null "dateTime" (J.from_string (format_rfc3339 S val)))

    -- A text that is no JSON, and an event that is no object, leave the event as it is.
    unfoldable pub set_json_passthrough : J.Json → String → S.Value → J.Json
    set_json_passthrough event key val =
        if S.is_null val
        then event
        else if is_empty (S.to_string val)
        then event
        else Option.get_or (Option.bind (J.parse (S.to_string val)) (λ v. J.put event key v)) event
