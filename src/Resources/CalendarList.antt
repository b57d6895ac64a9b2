-- ===== src/Resources/CalendarList.antt =====
-- The list of calendars: src/include/calendar/types.hpp and
-- src/calendar/resources/calendar_list.cpp.
use duckdb_google_calendar.Common.{
  List, [], ◌∷◌, ◌++◌, Bool, false, not, String, Bytes, codes, is_empty, none, some, if◌then◌else◌,
}
use duckdb_google_calendar.Common.Except.{
  Exec, Result, ok, throw, calendar_parse, bind, lift, ◌>>=◌,
}
use duckdb_google_calendar.Json.{JsonLib}
use duckdb_google_calendar.Util.Query.{url_encode}
use duckdb_google_calendar.Resources.Base.{Client, do_get, parse_response}

pub record CalendarListEntry : Type 0 where
  pub id : Bytes
  pub summary : Bytes
  pub description : Bytes
  pub time_zone : Bytes
  pub primary : Bool

pub record CalendarListResponse : Type 0 where
  pub items : List CalendarListEntry
  pub next_page_token : Bytes

module _ (J : JsonLib) where
  -- Members with a default. An exception of the JSON library becomes one of `ParseResponse`.
  unfoldable pub text_or_empty : J.Json → String → Result Bytes
  text_or_empty j key = elim (J.member j key) [
    | none ↦ ok []
    | some v ↦ elim (J.as_string v) [ none ↦ throw calendar_parse | some s ↦ ok s ]
  ]

  unfoldable pub flag_or_false : J.Json → String → Result Bool
  flag_or_false j key = elim (J.member j key) [
    | none ↦ ok false
    | some v ↦ elim (J.as_bool v) [ none ↦ throw calendar_parse | some b ↦ ok b ]
  ]

  unfoldable pub parse_entry : J.Json → Result CalendarListEntry
  parse_entry j =
      if not (J.is_object j)
      then throw calendar_parse
      else bind (text_or_empty j "id") (λ id. bind (text_or_empty j "summary") (λ summary.
        bind (text_or_empty j "description") (λ description.
          bind (text_or_empty j "timeZone") (λ time_zone.
            bind (flag_or_false j "primary") (λ primary. ok (record {
              id = id;
              summary = summary;
              description = description;
              time_zone = time_zone;
              primary = primary;
            }))))))

  unfoldable pub parse_entries : List J.Json → Result (List CalendarListEntry)
  unfolding parse_entry
  parse_entries [] = ok []
  parse_entries (j ∷ js) =
      bind (parse_entry j) (λ entry. bind (parse_entries js) (λ entries. ok (entry ∷ entries)))

  unfoldable pub parse_items : J.Json → Result (List CalendarListEntry)
  parse_items j = elim (J.member j "items") [
    | none ↦ ok []
    | some v ↦ elim (J.elements v) [ none ↦ throw calendar_parse | some js ↦ parse_entries js ]
  ]

  unfoldable pub parse_list : J.Json → Result CalendarListResponse
  parse_list j =
      if not (J.is_object j)
      then throw calendar_parse
      else bind (parse_items j) (λ items.
        bind (text_or_empty j "nextPageToken")
          (λ token. ok (record { items = items; next_page_token = token })))

  unfoldable pub list_calendars : {W : Type 0} → Client W → Bytes → Exec W CalendarListResponse
  list_calendars client page_token = do
    response ← do_get client (
        codes "/users/me/calendarList"
        ++ (if is_empty page_token then [] else codes "?pageToken=" ++ url_encode page_token))
    lift (bind (parse_response J response) parse_list)
