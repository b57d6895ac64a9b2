-- ===== src/Resources/Events.antt =====
-- `EventsResource` of src/calendar/resources/events.cpp.
use duckdb_google_calendar.Common.{◌++◌, Bytes, codes, not, ◌&&◌, ◌==◌, nat_eq, if◌then◌else◌}
use duckdb_google_calendar.Common.Except.{Exec, calendar_api, pure, raise, lift, ◌>>=◌}
use duckdb_google_calendar.Json.{JsonLib}
use duckdb_google_calendar.Util.Query.{url_encode}
use duckdb_google_calendar.Resources.Base.{
  Client, do_get, do_post, do_put, do_delete, parse_response,
}

unfoldable pub events_path : Bytes → Bytes
events_path calendar_id = codes "/calendars/" ++ (url_encode calendar_id ++ codes "/events")

unfoldable pub event_path : Bytes → Bytes → Bytes
event_path calendar_id event_id =
    codes "/calendars/" ++ (url_encode calendar_id ++ (codes "/events/" ++ url_encode event_id))

module _ (J : JsonLib) {W : Type 0} (client : Client W) (calendar_id : Bytes) where
  unfoldable pub list_events : Bytes → Exec W J.Json
  unfolding do_get parse_response
  list_events query_string = do
    response ← do_get client (events_path calendar_id ++ query_string)
    lift (parse_response J response)

  unfoldable pub get_event : Bytes → Exec W J.Json
  unfolding do_get parse_response
  get_event event_id = do
    response ← do_get client (event_path calendar_id event_id)
    lift (parse_response J response)

  unfoldable pub insert_event : J.Json → Exec W J.Json
  unfolding do_post parse_response
  insert_event event = do
    response ← do_post client (events_path calendar_id) (J.dump event)
    lift (parse_response J response)

  unfoldable pub update_event : Bytes → J.Json → Exec W J.Json
  unfolding do_put parse_response
  update_event event_id event = do
    response ← do_put client (event_path calendar_id event_id) (J.dump event)
    lift (parse_response J response)

  unfoldable pub delete_event : Bytes → Exec W (Unit {0})
  unfolding do_delete
  delete_event event_id = do
    response ← do_delete client (event_path calendar_id event_id)
    if not (response.status_code == 200) && not (response.status_code == 204)
        then raise (calendar_api response.status_code response.body)
        else pure tt
