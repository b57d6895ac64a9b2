-- ===== src/Resources/Calendars.antt =====
-- `CalendarsResource` of src/calendar/resources/calendars.cpp
use duckdb_google_calendar.Common.{◌++◌, Bytes, codes, not, ◌&&◌, ◌==◌, nat_eq, if◌then◌else◌}
use duckdb_google_calendar.Common.Except.{
  Exec, calendar_api, json_call, bind, pure, raise, lift, ◌>>=◌,
}
use duckdb_google_calendar.Json.{JsonLib}
use duckdb_google_calendar.Util.Query.{url_encode}
use duckdb_google_calendar.Resources.CalendarList.{parse_entry}
use duckdb_google_calendar.Resources.Base.{Client, do_post, do_delete, parse_response}

module _ (J : JsonLib) where
  module _ {W : Type 0} (client : Client W) where
    unfoldable pub insert_calendar : Bytes → Exec W Bytes
    insert_calendar summary = do
      body ← lift (json_call (J.put J.null "summary" (J.from_string summary)))
      response ← do_post client (codes "/calendars") (J.dump body)
      entry ← lift (bind (parse_response J response) (parse_entry J))
      pure entry.id

    unfoldable pub delete_calendar : Bytes → Exec W (Unit {0})
    delete_calendar calendar_id = do
      response ← do_delete client (codes "/calendars/" ++ url_encode calendar_id)
      if not (response.status_code == 200) && not (response.status_code == 204)
          then raise (calendar_api response.status_code response.body)
          else pure tt
