-- ===== src/Mapping/RoundTrip.antt =====
-- What is read back from an event after `ApplyColumn` wrote it.
use mathlib.Core.Option
use duckdb_google_calendar.Common.{
  String, Bool, true, false, Option, none, some, Bool-cases, inl, inr, ◌≡◌, refl, ◌∙◌, ◌==◌,
  string_eq, if◌then◌else◌, eq_iff, Bytes, beq_refl, ap,
}
use duckdb_google_calendar.Common.Except.{ok}
use duckdb_google_calendar.Common.Int.{ℤ}
use duckdb_google_calendar.Json.{JsonLib, IsLawful}
use duckdb_google_calendar.Json.Laws.{IsBody, put-Sets}
use duckdb_google_calendar.Sql.{SqlLib, LogicalType}
use duckdb_google_calendar.Sql as Sql
use duckdb_google_calendar.Mapping.Columns.{
  find_key, writable_string_keys, writable_bool_keys, writable_json_keys,
}
use duckdb_google_calendar.Mapping.Times.{existing_all_day, format_date, format_rfc3339}
use duckdb_google_calendar.Mapping.Times.Laws.{
  time_node_lem, existing_all_day_lem, raw_time_lem, IsTimeNode,
}
use duckdb_google_calendar.Mapping.Write.{apply_column}
use duckdb_google_calendar.Mapping.Write.Cases.{text, flag, apply_as_lem}
use duckdb_google_calendar.Mapping.Write.Table.{read_text, read_flag, read_raw}
use duckdb_google_calendar.Mapping.Read.{
  json_string, json_bool, json_raw, parse_event_time, extract_field,
}

not_id :
    (name key : String)
    → find_key name writable_string_keys ≡ some key
    → (name == "event_id") ≡ false
not_id name key h = elim (Bool-cases (name == "event_id")) [
  | inr other ↦ other
  | inl id ↦
      let e : name ≡ "event_id" = (eq_iff name "event_id").0 id in
      absurd (unfold find_key in cc (rw e at h))
]

module _ (J : JsonLib) (S : SqlLib) where
  -- Reading by the tables.
  extract_text :
      (event : J.Json) (name key : String)
      → find_key name writable_string_keys ≡ some key
      → extract_field J S event name ≡ json_string J S event key
  unfolding extract_field
  extract_text event name key h = rw (read_text name key h, extract_field)

  extract_flag :
      (event : J.Json) (name key : String)
      → find_key name writable_bool_keys ≡ some key
      → extract_field J S event name ≡ json_bool J S event key
  unfolding extract_field
  extract_flag event name key h =
      let (no_text, no_raw, found) = read_flag name key h in
      rw (no_text, no_raw, found, extract_field)

  extract_raw :
      (event : J.Json) (name key : String)
      → find_key name writable_json_keys ≡ some key
      → extract_field J S event name ≡ json_raw J S event key
  unfolding extract_field
  extract_raw event name key h =
      let (no_text, found) = read_raw name key h in rw (no_text, found, extract_field)

  member_self :
      (event event' : J.Json) (key : String) (v : Option J.Json)
      → ((k : String) → J.member event' k ≡ (if k == key then v else J.member event k))
      → J.member event' key ≡ v
  member_self event event' key v members = members key ∙ rw (beq_refl key)

  module _ (L : IsLawful J) (M : Sql.IsLawful S) where
    string_of :
        (event : J.Json) (key : String) (s : Bytes)
        → J.member event key ≡ some (J.from_string s)
        → json_string J S event key ≡ S.varchar s
    unfolding json_string
    string_of event key s h = rw (h, L.string_not_null, L.as_string-from_string, json_string)

    bool_of :
        (event : J.Json) (key : String) (b : Bool)
        → J.member event key ≡ some (J.from_bool b)
        → json_bool J S event key ≡ S.boolean b
    unfolding json_bool Option.bind
    bool_of event key b h = rw (h, json_bool, Option.bind, L.as_bool-from_bool)

    -- A text that is written to one of the writable string columns of an event body is read back
    -- from that column as it is, in either mode, and the write does not throw.
    pub extract-apply_text :
        (event : J.Json) (name key : String) (s : Bytes) (all_day update : Bool)
        → IsBody J event
        → find_key name writable_string_keys ≡ some key
        → (event' : J.Json) × (apply_column J S event name (S.varchar s) all_day update
            ≡ ok (event', true))
          × (extract_field J S event' name ≡ S.varchar s)
    extract-apply_text event name key s all_day update body h =
        let (event', e, object, members) = put-Sets J L event key (J.from_string s) body in
        (
          event',
          apply_as_lem J S event name (S.varchar s) all_day update (text key (not_id name key h) h)
              ∙ rw (M.varchar_not_null, M.to_string-varchar, e),
          extract_text event' name key h
              ∙ string_of event' key s (member_self event event' key _ members),
        )

    -- A truth value that is written to one of the writable flag columns of an event body is read
    -- back from that column, in either mode, and the write does not throw.
    pub extract-apply_flag :
        (event : J.Json) (name key : String) (b all_day update : Bool)
        → IsBody J event
        → (name == "event_id") ≡ false
        → find_key name writable_string_keys ≡ none
        → find_key name writable_bool_keys ≡ some key
        → (event' : J.Json) × (apply_column J S event name (S.boolean b) all_day update
            ≡ ok (event', true))
          × (extract_field J S event' name ≡ S.boolean b)
    extract-apply_flag event name key b all_day update body id no_text h =
        let (event', e, object, members) = put-Sets J L event key (J.from_bool b) body in
        (
          event',
          apply_as_lem J S event name (S.boolean b) all_day update (flag key id no_text h)
              ∙ rw (M.boolean_not_null, M.get_boolean-boolean, e),
          extract_flag event' name key h
              ∙ bool_of event' key b (member_self event event' key _ members),
        )

    -- `start` and `all_day` are written together.
    abbrev written : ℤ → Bool → Bytes
    written t all_day =
        if all_day then format_date S (S.timestamp_tz t) else format_rfc3339 S (S.timestamp_tz t)

    parse_time_of :
        (event node : J.Json) (t : ℤ) (all_day : Bool)
        → J.member event "start" ≡ some node
        → IsTimeNode J node all_day (written t all_day)
        → S.cast_timestamp_tz (S.varchar (written t all_day)) ≡ some (S.timestamp_tz t)
        → parse_event_time J S event "start" ≡ S.timestamp_tz t
    unfolding parse_event_time
    parse_time_of event node t all_day start time cast =
        rw (start, time.0, raw_time_lem J L node all_day _ time, cast, parse_event_time)

    extract_start :
        (event : J.Json)
        → (extract_field J S event "start" ≡ parse_event_time J S event "start")
          × (extract_field J S event "all_day" ≡ S.boolean (existing_all_day J event))
    unfolding extract_field find_key
    extract_start event = (refl, refl)

    -- A time that is written to `start` of an event body, by either encoding and in either mode,
    -- is read back from the column `start`, and the flag it was encoded by from `all_day`,
    -- provided that the engine reads its own text of the time.
    pub extract-apply_start :
        (event : J.Json) (t : ℤ) (all_day update : Bool)
        → IsBody J event
        → S.cast_timestamp_tz (S.varchar (written t all_day)) ≡ some (S.timestamp_tz t)
        → (event' : J.Json) × (apply_column J S event "start" (S.timestamp_tz t) all_day update
            ≡ ok (event', true))
          × (extract_field J S event' "start" ≡ S.timestamp_tz t)
          × (extract_field J S event' "all_day" ≡ S.boolean all_day)
    extract-apply_start event t all_day update body cast =
        let (node, built, time) = time_node_lem J L S (S.timestamp_tz t) all_day in
        let (event', e, object, members) = put-Sets J L event "start" node body in
        let start : J.member event' "start" ≡ some node =
          member_self event event' "start" _ members in
        (
          event',
          unfold apply_column find_key in rw (M.timestamp_not_null, built, e),
          (extract_start event').0 ∙ parse_time_of event' node t all_day start time cast,
          (extract_start event').1
              ∙ ap S.boolean (existing_all_day_lem J L event' node all_day _ start time),
        )
