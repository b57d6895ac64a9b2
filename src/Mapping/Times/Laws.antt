-- ===== src/Mapping/Times/Laws.antt =====
-- What the time nodes hold, and that `ExistingAllDay` reads back the flag they were written with.
use mathlib.Core.Option
use duckdb_google_calendar.Common.{
  ◌++◌, none, some, Bool, true, false, String, Bytes, codes, ◌≡◌, ◌∙◌, ◌==◌, nat_eq, string_eq,
  if◌then◌else◌, take, length, inr,
}
use duckdb_google_calendar.Common.Except.{Result, ok, json_call}
use duckdb_google_calendar.Json.{JsonLib, IsLawful}
use duckdb_google_calendar.Json.Laws.{IsBody, Sets, put-Sets}
use duckdb_google_calendar.Sql.{SqlLib}
use duckdb_google_calendar.Mapping.Times.{
  has, raw_time, existing_all_day, rebuild_time, reencode_time_node, time_node, format_date,
  format_rfc3339,
}

module _ (J : JsonLib) where
  -- A node that holds the text under the key of its kind, and nothing under the other.
  abbrev pub IsTimeNode : J.Json → Bool → Bytes → Type 0
  IsTimeNode node all_day text =
      (J.is_object node ≡ true)
      × (J.member node (if all_day then "date" else "dateTime") ≡ some (J.from_string text))
      × (J.member node (if all_day then "dateTime" else "date") ≡ none)

  -- A step that gives such a node.
  abbrev pub GivesTime : Bool → Bytes → Result J.Json → Type 0
  GivesTime all_day text r = (node : J.Json) × (r ≡ ok node) × IsTimeNode node all_day text

  -- What a rebuilt node holds: the first ten characters for a whole day, and else the text, with
  -- midnight added to a bare date.
  abbrev pub recoded : Bytes → Bool → Bytes
  recoded raw all_day =
      if all_day then take 10 raw else (if length raw == 10 then raw ++ codes "T00:00:00Z" else raw)

  module _ (L : IsLawful J) where
    one_member :
        (all_day : Bool) (text : Bytes)
        → GivesTime all_day text
            (json_call (J.put J.null (if all_day then "date" else "dateTime") (J.from_string text)))
    one_member true text =
        let (node, e, object, members) =
          put-Sets J L J.null "date" (J.from_string text) (inr L.null_is_null) in
        (node, e, (object, members "date", members "dateTime" ∙ L.member-null "dateTime"))
    one_member false text =
        let (node, e, object, members) =
          put-Sets J L J.null "dateTime" (J.from_string text) (inr L.null_is_null) in
        (node, e, (object, members "dateTime", members "date" ∙ L.member-null "date"))

    pub rebuild_time_lem :
        (raw : Bytes) (all_day : Bool)
        → GivesTime all_day (recoded raw all_day) (rebuild_time J raw all_day)
    unfolding rebuild_time
    rebuild_time_lem raw true = one_member true _
    rebuild_time_lem raw false = one_member false _

    pub time_node_lem :
        (S : SqlLib) (val : S.Value) (all_day : Bool)
        → GivesTime all_day
            (if all_day then format_date S val else format_rfc3339 S val)
            (time_node J S val all_day)
    unfolding time_node
    time_node_lem S val true = one_member true _
    time_node_lem S val false = one_member false _

    -- The text that a time node holds is the one that is read.
    pub raw_time_lem :
        (node : J.Json) (all_day : Bool) (text : Bytes)
        → IsTimeNode node all_day text
        → raw_time J node ≡ some text
    unfolding raw_time Option.bind
    raw_time_lem node true text (_, date, other) =
        rw (other, date, L.as_string-from_string, raw_time)
    raw_time_lem node false text (_, date_time, other) =
        rw (date_time, L.as_string-from_string, raw_time)

    pub existing_all_day_lem :
        (event node : J.Json) (all_day : Bool) (text : Bytes)
        → J.member event "start" ≡ some node
        → IsTimeNode node all_day text
        → existing_all_day J event ≡ all_day
    unfolding existing_all_day
    existing_all_day_lem event node true text start (object, date, other) =
        rw (start, object, date, other, existing_all_day, has)
    existing_all_day_lem event node false text start (object, date_time, other) =
        rw (start, object, other, existing_all_day, has)

    -- A node that holds a time is replaced by one of the kind that is asked for.
    pub reencode_time_lem :
        (event : J.Json) (key : String) (all_day : Bool) (node : J.Json) (raw : Bytes)
        → IsBody J event
        → J.member event key ≡ some node
        → J.is_object node ≡ true
        → raw_time J node ≡ some raw
        → (rebuilt : J.Json) × IsTimeNode rebuilt all_day (recoded raw all_day)
          × Sets J event key (some rebuilt) (reencode_time_node J event key all_day)
    reencode_time_lem event key all_day node raw body here object text =
        let (rebuilt, built, time) = rebuild_time_lem raw all_day in
        let (event', e, object', members) = put-Sets J L event key rebuilt body in
        (rebuilt, time, (event', step built ∙ e, object', members))
      where
        step :
            {rebuilt : J.Json}
            → rebuild_time J raw all_day ≡ ok rebuilt
            → reencode_time_node J event key all_day ≡ json_call (J.put event key rebuilt)
        step built = unfold reencode_time_node in rw (here, object, text, built, reencode_time_node)

    -- Where the `start` of an event body is an object with a text, encoding it anew for a value of
    -- `all_day` does not throw, the event is then read as one of that kind, and its text is the
    -- old one: cut to the date for a whole day, and else with midnight added if it was a bare
    -- date.
    pub existing_all_day-reencode :
        (event node : J.Json) (raw : Bytes) (all_day : Bool)
        → IsBody J event
        → J.member event "start" ≡ some node
        → J.is_object node ≡ true
        → raw_time J node ≡ some raw
        → (event' : J.Json) × (reencode_time_node J event "start" all_day ≡ ok event')
          × (existing_all_day J event' ≡ all_day)
          × ((node' : J.Json) × (J.member event' "start" ≡ some node')
              × (raw_time J node' ≡ some (recoded raw all_day)))
    existing_all_day-reencode event node raw all_day body here object text =
        let (rebuilt, time, (event', e, object', members)) =
          reencode_time_lem event "start" all_day node raw body here object text in
        let start : J.member event' "start" ≡ some rebuilt = members "start" in
        (
          event',
          e,
          existing_all_day_lem event' rebuilt all_day _ start time,
          (rebuilt, start, raw_time_lem rebuilt all_day _ time),
        )
