-- ===== src/Dml/Service.antt =====
-- The events of a calendar as the server keeps them, and what the API documents of the requests for
-- them: the abstract table that the statements of src/storage work on.
pub mod Calls
pub mod Delete
pub mod Update
pub mod Insert
use duckdb_google_calendar.Common.{
  Bool, Bytes, IsBytes, Option, none, some, true, false, ◌==◌, bytes_eq, if◌then◌else◌, ◌≡◌, ◌⊎◌,
}
use duckdb_google_calendar.Common.Except.{Result, ok}
use duckdb_google_calendar.Json.{JsonLib}
use duckdb_google_calendar.Transport.HttpType.{HttpResponse}
use duckdb_google_calendar.Resources.Base.{Client, do_get, do_post, do_put, do_delete}
use duckdb_google_calendar.Resources.Events.{events_path, event_path}

-- The events by their ids.
abbrev pub Events : JsonLib → Type 0
Events J = Bytes → Option J.Json

module _ (J : JsonLib) where
  abbrev pub set_event : Bytes → J.Json → Events J → Events J
  set_event id event events = λ other. if other == id then some event else events other

  abbrev pub erase_event : Bytes → Events J → Events J
  erase_event id events = λ other. if other == id then none else events other

  -- A request is answered with status 200 and the text of a JSON value, in the world `w'`.
  abbrev pub Replies : {W : Type 0} → Result HttpResponse × W → J.Json → W → Type 0
  Replies p event w' =
      (r : HttpResponse) × (p ≡ (ok r, w')) × (r.status_code ≡ 200) × (J.parse r.body ≡ some event)

  -- Nobody else changes the calendar, and no request fails for the network.
  module _ {W : Type 0} (client : Client W) (calendar_id : Bytes) where
    -- An event that is there can be read and deleted.
    pub record Store : Type 1 where
      pub stored : W → Events J
      pub get_stored :
          (w : W) (id : Bytes) (event : J.Json)
          → IsBytes id
          → stored w id ≡ some event
          → (w' : W) × Replies (do_get client (event_path calendar_id id) w) event w'
            × (stored w' ≡ stored w)
      pub delete_stored :
          (w : W) (id : Bytes) (old : J.Json)
          → IsBytes id
          → stored w id ≡ some old
          → (r : HttpResponse) × (w' : W) × (do_delete client (event_path calendar_id id) w
              ≡ (ok r, w'))
            × ((r.status_code ≡ 200) ⊎ (r.status_code ≡ 204))
            × (stored w' ≡ erase_event id (stored w))

    -- `Takes` says which bodies the server takes, and `Accepts body event` what it may make of one:
    -- it adds the fields that it manages itself. `reserved` says which ids cannot be given to a new
    -- event: those of events, and those of deleted events for as long as the server keeps them. An
    -- event as it was read is a body that the server takes.
    pub record Service : Type 1 where
      pub store : Store
      pub Takes : J.Json → Type 0
      pub Accepts : J.Json → J.Json → Type 0
      pub reserved : W → Bytes → Bool
      pub stored_object :
          (w : W) (id : Bytes) (event : J.Json)
          → store.stored w id ≡ some event
          → J.is_object event ≡ true
      pub stored_taken :
          (w : W) (id : Bytes) (event : J.Json) → store.stored w id ≡ some event → Takes event
      pub stored_reserved :
          (w : W) (id : Bytes) (event : J.Json)
          → store.stored w id ≡ some event
          → reserved w id ≡ true
      -- A PUT replaces an event, and makes one anew in the place of a deleted one.
      pub put_reserved :
          (w : W) (id : Bytes) (body : J.Json)
          → IsBytes id
          → reserved w id ≡ true
          → J.is_object body ≡ true
          → Takes body
          → (event : J.Json) × (w' : W) × Replies
              (do_put client (event_path calendar_id id) (J.dump body) w)
              event
              w'
            × Accepts body event
            × (store.stored w' ≡ set_event id event (store.stored w))
      -- An event with an id that is not reserved, one with no id, and one whose id is reserved.
      pub post_new :
          (w : W) (id : Bytes) (body : J.Json)
          → J.is_object body ≡ true
          → Takes body
          → J.member body "id" ≡ some (J.from_string id)
          → reserved w id ≡ false
          → (event : J.Json) × (w' : W) × Replies
              (do_post client (events_path calendar_id) (J.dump body) w)
              event
              w'
            × Accepts body event
            × (store.stored w' ≡ set_event id event (store.stored w))
      pub post_unnamed :
          (w : W) (body : J.Json)
          → J.is_object body ≡ true
          → Takes body
          → J.member body "id" ≡ none
          → (id : Bytes) × (event : J.Json) × (w' : W) × (store.stored w id ≡ none)
            × Replies (do_post client (events_path calendar_id) (J.dump body) w) event w'
            × Accepts body event
            × (store.stored w' ≡ set_event id event (store.stored w))
      pub post_reserved :
          (w : W) (id : Bytes) (body : J.Json)
          → J.is_object body ≡ true
          → Takes body
          → J.member body "id" ≡ some (J.from_string id)
          → reserved w id ≡ true
          → (r : HttpResponse) × (w' : W) × (do_post client
                (events_path calendar_id)
                (J.dump body)
                w
              ≡ (ok r, w'))
            × (r.status_code ≡ 409)
            × (store.stored w' ≡ store.stored w)
            × (reserved w' id ≡ true)
