-- ===== src/Dml/Service/Insert.antt =====
-- An INSERT (src/storage/calendar_insert.cpp) as a step of the abstract table: it stores an event
-- for each row, in the place of the one that has its id.
use mathlib.Core.Option
use duckdb_google_calendar.Common.{
  Option, List, [], ◌∷◌, Bool, true, String, Bytes, IsBytes, none, some, All, ◌≡◌, refl, ap, ◌∙◌,
  inl, inr, Bool-cases, nat_eq,
}
use duckdb_google_calendar.Common.Except.{ok, throw, calendar_api, Exception}
use duckdb_google_calendar.Json.{JsonLib, IsLawful}
use duckdb_google_calendar.Sql.{SqlLib}
use duckdb_google_calendar.Mapping.Times.{has}
use duckdb_google_calendar.Mapping.Read.{event_to_row}
use duckdb_google_calendar.Mapping.Write.{row_to_event}
use duckdb_google_calendar.Mapping.Ids.{client_id, row_to_event-client_id}
use duckdb_google_calendar.Transport.HttpType.{HttpResponse}
use duckdb_google_calendar.Resources.Base.{Client, do_post, parse_response}
use duckdb_google_calendar.Resources.Events.{insert_event, events_path}
use duckdb_google_calendar.Dml.Sink.{SinkState, Row, push_row}
use duckdb_google_calendar.Dml.Insert.{
  insert_or_update, recover, on_exception, get_id, sink_row, sink,
}
use duckdb_google_calendar.Dml.Service.{Events, set_event, Service}
use duckdb_google_calendar.Dml.Service.Calls.{insert_event-Replies, update_event-Replies}

module _ (J : JsonLib) (S : SqlLib) (what : Exception → Bytes) (calendar_id : Bytes)
    (return_chunk : Bool) (names : List String) where
  -- The client's id, if there is one, is a text of bytes.
  abbrev OfBytes : Option Bytes → Type 0
  OfBytes none = Unit
  OfBytes (some id) = IsBytes id

  -- The place of the event: the client's id, or else one that is free.
  abbrev pub Place : Events J → Option Bytes → Bytes → Type 0
  Place events none id = events id ≡ none
  Place events (some chosen) id = id ≡ chosen

  module _ {W : Type 0} (client : Client W) (service : Service J client calendar_id) where
    open service use {store, Takes, Accepts, reserved}
    open store use {stored}

    -- The client's id of a row is such, and the row is mapped to an object that the server takes.
    abbrev pub IsInsertable : Row S → Type 0
    IsInsertable row =
        OfBytes (client_id S row 0 names none)
        × ((body : J.Json)
            → row_to_event J S row names ≡ ok body
            → (J.is_object body ≡ true) × Takes body)

    -- The rows go one by one: what the server makes of the event of a row is stored in its place,
    -- is counted, and is kept for RETURNING.
    abbrev pub Upserts :
        List (Row S) → Events J → SinkState S.Value → Events J → SinkState S.Value → Type 0
    Upserts [] events state events' state' = (events' ≡ events) × (state' ≡ state)
    Upserts (row ∷ rows) events state events' state' =
        (body : J.Json) × (id : Bytes) × (new : J.Json) × (row_to_event J S row names ≡ ok body)
        × Place events (client_id S row 0 names none) id
        × Accepts body new
        × Upserts rows (set_event J id new events)
            (push_row S return_chunk (event_to_row J S new names calendar_id) state) events' state'

    -- The outcome of the calls for one event.
    abbrev Stores : J.Json → Option Bytes → W → Type 0
    Stores body chosen w =
        (id : Bytes) × (new : J.Json) × (w' : W) × (insert_or_update J S what client calendar_id
            body w
          ≡ (ok new, w'))
        × Place (stored w) chosen id
        × Accepts body new
        × (stored w' ≡ set_event J id new (stored w))

    module _ (L : IsLawful J) (body : J.Json) (w : W) (object : J.is_object body ≡ true)
        (takes : Takes body) where
      conflict :
          (r : HttpResponse) (w1 : W)
          → do_post client (events_path calendar_id) (J.dump body) w ≡ (ok r, w1)
          → r.status_code ≡ 409
          → insert_event J client calendar_id body w ≡ (throw (calendar_api 409 r.body), w1)
      unfolding insert_event parse_response
      conflict r w1 posted status = rw (posted, status)

      Stores-taken :
          (id : Bytes)
          → IsBytes id
          → J.member body "id" ≡ some (J.from_string id)
          → reserved w id ≡ true
          → Stores body (some id) w
      unfolding insert_or_update recover on_exception
      Stores-taken id bytes member kept =
          let (r, w1, posted, status, same, still) =
            service.post_reserved w id body object takes member kept in
          let (new, w2, sent, accepted, put) =
            service.put_reserved w1 id body bytes still object takes in
          (
            id,
            new,
            w2,
            rw (
              conflict r w1 posted status,
              member,
              L.as_string-from_string,
              update_event-Replies J client calendar_id id body new w1 w2 sent,
              insert_or_update,
              has,
              get_id,
            ),
            refl,
            accepted,
            put ∙ ap (set_event J id new) same,
          )

      stores :
          (chosen : Option Bytes)
          → OfBytes chosen
          → J.member body "id" ≡ Option.map J.from_string chosen
          → Stores body chosen w
      unfolding insert_or_update recover
      stores none bytes unnamed =
          let (id, new, w1, fresh, sent, accepted, put) =
            service.post_unnamed w body object takes unnamed in
          (
            id,
            new,
            w1,
            rw (insert_event-Replies J client calendar_id body new w w1 sent, insert_or_update),
            fresh,
            accepted,
            put,
          )
      stores (some id) bytes member = elim (Bool-cases (reserved w id)) [
        | inl kept ↦ Stores-taken id bytes member kept
        | inr fresh ↦
            let (new, w1, sent, accepted, put) =
              service.post_new w id body object takes member fresh in
            (
              id,
              new,
              w1,
              rw (insert_event-Replies J client calendar_id body new w w1 sent, insert_or_update),
              refl,
              accepted,
              put,
            )
      ]

    -- Over such a server, an INSERT of rows that are mapped to objects which the server takes, and
    -- whose ids, if they have one, are texts of bytes, comes to an end without an exception, also
    -- where an id is reserved, and the stored events and the state of the sink are those of the
    -- abstract INSERT.
    pub insert_refines :
        (rows : List (Row S)) (state : SinkState S.Value) (w : W)
        → IsLawful J
        → All IsInsertable rows
        → (state' : SinkState S.Value) × (w' : W) × (sink J S what client calendar_id return_chunk
              names rows state w
            ≡ (ok state', w'))
          × Upserts rows (stored w) state (stored w') state'
    unfolding sink sink_row
    insert_refines [] state w L h = (state, w, refl, (refl, refl))
    insert_refines (row ∷ rows) state w L ((bytes, fit), hs) =
        let (body, mapped, _, shows) = row_to_event-client_id S row J L names in
        let (id, new, w1, one, place, accepted, put) =
          stores L body w (fit body mapped).0 (fit body mapped).1 (client_id S row 0 names none)
            bytes shows in
        let (state', w', done, chain) =
          insert_refines rows
            (push_row S return_chunk (event_to_row J S new names calendar_id) state) w1 L hs in
        (
          state',
          w',
          rw (mapped, one, sink_row) done,
          (body, id, new, mapped, place, accepted, rw put at chain),
        )
