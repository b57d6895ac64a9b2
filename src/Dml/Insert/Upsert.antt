-- ===== src/Dml/Insert/Upsert.antt =====
-- The requests of an INSERT for a row: a POST, and a PUT behind a conflict.
use duckdb_google_calendar.Common.{
  List, [], ◌∷◌, Bool, false, ◌&&◌, String, Bytes, codes, none, some, ◌==◌, nat_eq, ◌≡◌, arith, ◌⊎◌,
  inl, inr,
}
use duckdb_google_calendar.Common.Except.{ok, throw, Exception, calendar_api, io}
use duckdb_google_calendar.Json.{JsonLib, IsLawful}
use duckdb_google_calendar.Sql.{SqlLib}
use duckdb_google_calendar.Mapping.Times.{has}
use duckdb_google_calendar.Mapping.Write.{row_to_event}
use duckdb_google_calendar.Mapping.Read.{event_to_row}
use duckdb_google_calendar.Resources.Base.{Client, do_post, do_put, parse_response}
use duckdb_google_calendar.Resources.Events.{insert_event, update_event, events_path, event_path}
use duckdb_google_calendar.Transport.HttpType.{HttpResponse}
use duckdb_google_calendar.Dml.Sink.{SinkState, Row, push_row}
use duckdb_google_calendar.Dml.Insert.{
  insert_or_update, recover, on_exception, insert_failed, get_id, sink_row,
}

and_false : (b : Bool) → (b && false) ≡ false
and_false b = ground arith

module _ (J : JsonLib) (L : IsLawful J) (S : SqlLib) (what : Exception → Bytes) {W : Type 0}
    (client : Client W) (calendar_id : Bytes) (return_chunk : Bool) (names : List String)
    (row : Row S) (event : J.Json) (mapped : row_to_event J S row names ≡ ok event) where
  parse_failed :
      (r : HttpResponse)
      → (r.status_code == 200) ≡ false
      → parse_response J r ≡ throw (calendar_api r.status_code r.body)
  unfolding parse_response
  parse_failed r h = rw h

  parse_created :
      (r : HttpResponse) (created : J.Json)
      → r.status_code ≡ 200
      → J.parse r.body ≡ some created
      → parse_response J r ≡ ok created
  unfolding parse_response
  parse_created r created e parsed = rw (e, parsed)

  -- A row of an INSERT whose event carries a client id, and whose POST to the events of the
  -- calendar is answered with status 409, is sent once more as a PUT of the same body to the path
  -- of that id; if the PUT is answered with 200 and a body that parses, the row counts as
  -- inserted, is kept for RETURNING, and no further request is made.
  pub sink_row_conflict :
      (id : Bytes) (state : SinkState S.Value) (w w1 w2 : W) (r1 r2 : HttpResponse)
      (created : J.Json)
      → J.member event "id" ≡ some (J.from_string id)
      → do_post client (events_path calendar_id) (J.dump event) w ≡ (ok r1, w1)
      → r1.status_code ≡ 409
      → do_put client (event_path calendar_id id) (J.dump event) w1 ≡ (ok r2, w2)
      → r2.status_code ≡ 200
      → J.parse r2.body ≡ some created
      → sink_row J S what client calendar_id return_chunk names row state w
        ≡ (ok (push_row S return_chunk (event_to_row J S created names calendar_id) state), w2)
  unfolding sink_row
  sink_row_conflict id state w w1 w2 r1 r2 created member posted conflict stored fine parsed =
      let failed : insert_event J client calendar_id event w
          ≡ (throw (calendar_api r1.status_code r1.body), w1) =
        unfold insert_event in rw (posted, parse_failed r1 (rw conflict), insert_event) in
      let updated : update_event J client calendar_id id event w1 ≡ (ok created, w2) =
        unfold update_event in rw (stored, parse_created r2 created fine parsed, update_event) in
      let done : insert_or_update J S what client calendar_id event w ≡ (ok created, w2) =
        unfold insert_or_update recover on_exception in
        rw (
          failed, conflict, member, L.as_string-from_string, updated, insert_or_update, has, get_id,
        ) in
      rw (mapped, done, sink_row)

  -- The exception of an event that was not inserted.
  abbrev pub failure : Bytes → HttpResponse → Exception
  failure id r =
      io
        "google_calendar: events.insert failed for event_id=%s on calendar %s: %s\nrequest body: %s"
        (id ∷ calendar_id ∷ what (calendar_api r.status_code r.body) ∷ J.dump event ∷ [])

  -- What the exception calls the event: its id, if it has one and the answer was no conflict.
  abbrev pub Names : Bytes → HttpResponse → Type 0
  Names id r =
      ((J.member event "id" ≡ none) × (id ≡ codes "(server-assigned)"))
      ⊎ ((J.member event "id" ≡ some (J.from_string id)) × ((r.status_code == 409) ≡ false))

  refused :
      (w : W) (id : Bytes) (r : HttpResponse)
      → Names id r
      → on_exception J S what client calendar_id event (calendar_api r.status_code r.body) w
        ≡ (throw (failure id r), w)
  unfolding on_exception insert_failed
  refused w id r (inl (absent, e)) =
      rw (absent, e, and_false (r.status_code == 409), insert_failed, on_exception, has)
  refused w id r (inr (member, other)) =
      rw (other, member, L.as_string-from_string, insert_failed, on_exception, has, get_id)

  -- If the POST of a row is answered with a status other than 200, and the event has no id, or has
  -- one and the status is not 409, the INSERT throws at once and makes no further request; the
  -- exception carries the id (or that the server was to assign it), the calendar, the error and
  -- the request body.
  pub sink_row_failed :
      (state : SinkState S.Value) (w w1 : W) (r : HttpResponse) (id : Bytes)
      → do_post client (events_path calendar_id) (J.dump event) w ≡ (ok r, w1)
      → (r.status_code == 200) ≡ false
      → Names id r
      → sink_row J S what client calendar_id return_chunk names row state w
        ≡ (throw (failure id r), w1)
  unfolding sink_row
  sink_row_failed state w w1 r id posted bad known =
      let failed : insert_event J client calendar_id event w
          ≡ (throw (calendar_api r.status_code r.body), w1) =
        unfold insert_event in rw (posted, parse_failed r bad, insert_event) in
      let done : insert_or_update J S what client calendar_id event w ≡ (throw (failure id r), w1) =
        unfold insert_or_update recover in rw (failed, refused w1 id r known, insert_or_update) in
      rw (mapped, done, sink_row)
