-- ===== src/Dml/Service/Calls.antt =====
-- What the calls of src/calendar/resources/events.cpp give over such a server.
use duckdb_google_calendar.Common.{
  ℕ, Bytes, IsBytes, some, false, not, ◌&&◌, arith, ◌==◌, nat_eq, ◌≡◌, ◌⊎◌,
}
use duckdb_google_calendar.Common.Except.{ok}
use duckdb_google_calendar.Json.{JsonLib}
use duckdb_google_calendar.Transport.HttpType.{HttpResponse}
use duckdb_google_calendar.Resources.Base.{Client, do_post, do_put, parse_response}
use duckdb_google_calendar.Resources.Events.{
  get_event, update_event, insert_event, delete_event, events_path, event_path,
}
use duckdb_google_calendar.Dml.Service.{erase_event, Replies, Store}

accepted : (s : ℕ) → (s ≡ 200) ⊎ (s ≡ 204) → (not (s == 200) && not (s == 204)) ≡ false
accepted s h = ground arith

module _ (J : JsonLib) where
  parse_reply :
      (r : HttpResponse) (event : J.Json)
      → r.status_code ≡ 200
      → J.parse r.body ≡ some event
      → parse_response J r ≡ ok event
  unfolding parse_response
  parse_reply r event fine parsed = rw (fine, parsed)

  module _ {W : Type 0} (client : Client W) (calendar_id : Bytes) where
    pub update_event-Replies :
        (id : Bytes) (body event : J.Json) (w w' : W)
        → Replies J (do_put client (event_path calendar_id id) (J.dump body) w) event w'
        → update_event J client calendar_id id body w ≡ (ok event, w')
    unfolding update_event
    update_event-Replies id body event w w' (r, sent, fine, parsed) =
        rw (sent, parse_reply r event fine parsed)

    pub insert_event-Replies :
        (body event : J.Json) (w w' : W)
        → Replies J (do_post client (events_path calendar_id) (J.dump body) w) event w'
        → insert_event J client calendar_id body w ≡ (ok event, w')
    unfolding insert_event
    insert_event-Replies body event w w' (r, sent, fine, parsed) =
        rw (sent, parse_reply r event fine parsed)

    module _ (store : Store J client calendar_id) where
      open store use {stored}

      pub get_event-stored :
          (w : W) (id : Bytes) (event : J.Json)
          → IsBytes id
          → stored w id ≡ some event
          → (w' : W) × (get_event J client calendar_id id w ≡ (ok event, w'))
            × (stored w' ≡ stored w)
      unfolding get_event
      get_event-stored w id event bytes there =
          let (w', (r, sent, fine, parsed), same) = store.get_stored w id event bytes there in
          (w', rw (sent, parse_reply r event fine parsed), same)

      pub delete_event-stored :
          (w : W) (id : Bytes) (old : J.Json)
          → IsBytes id
          → stored w id ≡ some old
          → (w' : W) × (delete_event J client calendar_id id w ≡ (ok tt, w'))
            × (stored w' ≡ erase_event J id (stored w))
      unfolding delete_event
      delete_event-stored w id old bytes there =
          let (r, w', sent, fine, gone) = store.delete_stored w id old bytes there in
          (w', rw (sent, accepted r.status_code fine), gone)
