-- ===== src/Mapping/Read.antt =====
-- `ExtractField` with its helpers, and `EventToRow`.
use mathlib.Core.Option
use duckdb_google_calendar.Common.{
  List, map, none, some, not, String, Bytes, ◌==◌, string_eq, if◌then◌else◌,
}
use duckdb_google_calendar.Json.{JsonLib}
use duckdb_google_calendar.Sql.{SqlLib, LogicalType}
use duckdb_google_calendar.Mapping.Columns.{find_key, string_keys, raw_keys, bool_keys}
use duckdb_google_calendar.Mapping.Times.{raw_time, existing_all_day}

module _ (J : JsonLib) (S : SqlLib) where
  unfoldable pub json_string : J.Json → String → S.Value
  json_string event key = elim (J.member event key) [
    | none ↦ S.null_of LogicalType.varchar
    | some v ↦
        if J.is_null v
        then S.null_of LogicalType.varchar
        else elim (J.as_string v) [ some s ↦ S.varchar s | none ↦ S.varchar (J.dump v) ]
  ]

  unfoldable pub json_raw : J.Json → String → S.Value
  json_raw event key = elim (J.member event key) [
    | none ↦ S.null_of LogicalType.varchar
    | some v ↦ if J.is_null v then S.null_of LogicalType.varchar else S.varchar (J.dump v)
  ]

  unfoldable pub json_bool : J.Json → String → S.Value
  json_bool event key = elim (Option.bind (J.member event key) J.as_bool) [
    | none ↦ S.null_of LogicalType.boolean
    | some b ↦ S.boolean b
  ]

  unfoldable pub json_bigint : J.Json → String → S.Value
  json_bigint event key = elim (Option.bind (J.member event key) J.as_int) [
    | none ↦ S.null_of LogicalType.bigint
    | some n ↦ S.bigint n
  ]

  unfoldable pub parse_event_time : J.Json → String → S.Value
  unfolding raw_time
  parse_event_time event which = elim (J.member event which) [
    | none ↦ S.null_of LogicalType.timestamp_tz
    | some node ↦
        if not (J.is_object node)
        then S.null_of LogicalType.timestamp_tz
        else elim (raw_time J node) [
          | none ↦ S.null_of LogicalType.timestamp_tz
          | some raw ↦
              Option.get_or (S.cast_timestamp_tz (S.varchar raw))
                (S.null_of LogicalType.timestamp_tz)
        ]
  ]

  -- The columns that stand in no table.
  unfoldable pub extract_special : J.Json → String → S.Value
  unfolding parse_event_time existing_all_day json_bigint
  extract_special event field =
      if field == "start"
      then parse_event_time event "start"
      else if field == "end"
      then parse_event_time event "end"
      else if field == "original_start_time"
      then parse_event_time event "originalStartTime"
      else if field == "all_day"
      then S.boolean (existing_all_day J event)
      else if field == "sequence"
      then json_bigint event "sequence"
      else S.null_of LogicalType.sqlnull

  unfoldable pub extract_field : J.Json → String → S.Value
  unfolding extract_special json_string json_raw json_bool
  extract_field event field = elim (find_key field string_keys) [
    | some key ↦ json_string event key
    | none ↦ elim (find_key field raw_keys) [
      | some key ↦ json_raw event key
      | none ↦ elim (find_key field bool_keys) [
        | some key ↦ json_bool event key
        | none ↦ extract_special event field
      ]
    ]
  ]

  unfoldable pub event_to_row : J.Json → List String → Bytes → List S.Value
  unfolding extract_field
  event_to_row event names calendar_id =
      map
        (λ name. if name == "calendar_id" then S.varchar calendar_id else extract_field event name)
        names
