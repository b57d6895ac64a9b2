-- ===== src/Tests/Server.antt =====
-- A server that keeps the events of the calendar `c`, for the tests: it stores what it is sent.
mod Statements
use duckdb_google_calendar.Common.{
  ℕ, zero, suc, ◌+◌, ◌<◌, List, [], ◌∷◌, Option, none, some, Bool, true, false, Bytes, IsBytes,
  codes, ◌==◌, bytes_eq, if◌then◌else◌, ◌≡◌, refl, ap, sym, ◌∙◌, inl, inr, Bool-cases, length, drop,
  arith, some-injective,
}
use duckdb_google_calendar.Common.Except.{Exec, ok}
use duckdb_google_calendar.Util.Query.{url_encode}
use duckdb_google_calendar.Util.Query.Percent.{url_decode, url_decode-url_encode}
use duckdb_google_calendar.Transport.HttpType.{HttpMethod, HttpRequest, HttpResponse}
use duckdb_google_calendar.Json.Log.{log_json}
use duckdb_google_calendar.Resources.Base.{Client, do_get, do_post, do_put, do_delete}
use duckdb_google_calendar.Resources.Events.{event_path}
use duckdb_google_calendar.Dml.Service.{Store, Service, set_event, erase_event, Events}

-- The changes of the calendar, the last one first: an event without its kind, or that one is gone.
abbrev pub Log : Type 0
Log = List (Bytes × Option Bytes)

abbrev pub stored : Log → Events log_json
stored [] other = none
stored ((id, some event) ∷ log) other = if other == id then some (3 ∷ event) else stored log other
stored ((id, none) ∷ log) other = if other == id then none else stored log other

abbrev or_empty : Option Bytes → Bytes
or_empty none = []
or_empty (some s) = s

-- The ids that were given away, those of deleted events too.
abbrev pub reserved : Log → Bytes → Bool
reserved [] other = false
reserved ((id, change) ∷ log) other =
    let rest = reserved log other in if other == id then true else rest

event_of : Bytes → Bytes
event_of url = or_empty (url_decode (drop 20 url))

abbrev total : Log → ℕ
total [] = 0
total ((id, event) ∷ log) = length id + total log

abbrev zeros : ℕ → Bytes
zeros zero = []
zeros (suc n) = 0 ∷ zeros n

abbrev free_id : Log → Bytes
free_id log = zeros (suc (total log))

abbrev answer : ℕ → Bytes → HttpResponse
answer n body = record { status_code = n; headers = []; body = body }

abbrev store : Bytes → Bytes → Exec Log HttpResponse
store id body log = (ok (answer 200 body), (id, some (drop 1 body)) ∷ log)

chosen : Bytes → Option Bytes
chosen body = elim (log_json.member body "id") [ none ↦ none | some id ↦ log_json.as_string id ]

on_get : Bytes → Exec Log HttpResponse
on_get id log = elim (stored log id) [
  | none ↦ (ok (answer 404 []), log)
  | some event ↦ (ok (answer 200 event), log)
]

on_put : Bytes → Bytes → Exec Log HttpResponse
on_put id body log = if reserved log id then store id body log else (ok (answer 404 []), log)

on_delete : Bytes → Exec Log HttpResponse
on_delete id log = elim (stored log id) [
  | none ↦ (ok (answer 410 []), log)
  | some event ↦ (ok (answer 204 []), (id, none) ∷ log)
]

on_post : Option Bytes → Bytes → Exec Log HttpResponse
on_post none body log = store (free_id log) body log
on_post (some id) body log =
    if reserved log id then (ok (answer 409 []), log) else store id body log

pub serve : HttpMethod → Bytes → Bytes → Exec Log HttpResponse
serve HttpMethod.get url body = on_get (event_of url)
serve HttpMethod.put url body = on_put (event_of url) body
serve HttpMethod.del url body = on_delete (event_of url)
serve HttpMethod.post url body = on_post (chosen body) body

abbrev pub calendar : Client Log
calendar = record {
  http = record { execute = λ request. serve request.method request.url request.body };
  headers = [];
  base_url = [];
}

drop-event_path : (id : Bytes) → drop 20 (event_path (codes "c") id) ≡ url_encode id
unfolding event_path url_encode
drop-event_path id = refl

event_of-event_path : (id : Bytes) → IsBytes id → event_of (event_path (codes "c") id) ≡ id
unfolding event_of
event_of-event_path id bytes = rw (drop-event_path id, url_decode-url_encode id bytes)

object_kind : (b : Bytes) → log_json.is_object b ≡ true → b ≡ 3 ∷ drop 1 b
object_kind [] h = cc
object_kind (k ∷ b) h = ground arith

stored_object :
    (log : Log) (id event : Bytes) → stored log id ≡ some event → log_json.is_object event ≡ true
stored_object [] id event h = cc
stored_object ((other, none) ∷ log) id event h = elim (Bool-cases (id == other)) [
  | inl here ↦ let e : ◌≡◌ {A = Option Bytes} none (some event) = rw here at h in absurd cc
  | inr later ↦ stored_object log id event (rw later at h)
]
stored_object ((other, some e) ∷ log) id event h = elim (Bool-cases (id == other)) [
  | inl here ↦ let same : 3 ∷ e ≡ event = some-injective _ _ (rw here at h) in rw (← same)
  | inr later ↦ stored_object log id event (rw later at h)
]

length-zeros : (n : ℕ) → length (zeros n) ≡ n
length-zeros zero = omega arith
length-zeros (suc n) = omega (arith, length-zeros n)

stored-long : (log : Log) (id : Bytes) → total log < length id → stored log id ≡ none
stored-long [] id h = refl
stored-long ((other, v) ∷ log) id h = elim (Bool-cases (id == other)) [
  | inl here ↦
      let same : length id ≡ length other = ap length ((bytes_eq.beq_iff id other).0 here) in
      absurd (omega arith)
  | inr later ↦ skipped v later (stored-long log id (omega arith))
]
  where
    skipped :
        (v : Option Bytes)
        → (id == other) ≡ false
        → stored log id ≡ none
        → stored ((other, v) ∷ log) id ≡ none
    skipped none apart rest = rw (apart, rest)
    skipped (some e) apart rest = rw (apart, rest)

stored-free : (log : Log) → stored log (free_id log) ≡ none
stored-free log = stored-long log (free_id log) (omega (arith, length-zeros (suc (total log))))

-- What is stored of a body that is an object.
stored_body :
    (log : Log) (id body : Bytes)
    → log_json.is_object body ≡ true
    → stored ((id, some (drop 1 body)) ∷ log) ≡ set_event log_json id body (stored log)
stored_body log id body object =
    ap (λ (b : Bytes). set_event log_json id b (stored log)) (sym (object_kind body object))

chosen_id :
    (body id : Bytes)
    → log_json.member body "id" ≡ some (log_json.from_string id)
    → chosen body ≡ some id
unfolding chosen
chosen_id body id member = rw (member, chosen)

chosen-none : (body : Bytes) → log_json.member body "id" ≡ none → chosen body ≡ none
unfolding chosen
chosen-none body member = rw (member, chosen)

module _ (log : Log) (id : Bytes) where
  found : (e : Bytes) → stored log id ≡ some e → on_get id log ≡ (ok (answer 200 e), log)
  unfolding on_get
  found e there = rw (there, on_get)

  replaced : (body : Bytes) → reserved log id ≡ true → on_put id body log ≡ store id body log
  unfolding on_put
  replaced body kept = rw (kept, on_put)

  gone :
      (e : Bytes)
      → stored log id ≡ some e
      → on_delete id log ≡ (ok (answer 204 []), (id, none) ∷ log)
  unfolding on_delete
  gone e there = rw (there, on_delete)

  added : (body : Bytes) → reserved log id ≡ false → on_post (some id) body log ≡ store id body log
  unfolding on_post
  added body fresh = rw (fresh, on_post)

  taken :
      (body : Bytes)
      → reserved log id ≡ true
      → on_post (some id) body log ≡ (ok (answer 409 []), log)
  unfolding on_post
  taken body kept = rw (kept, on_post)

stored_reserved :
    (log : Log) (id event : Bytes) → stored log id ≡ some event → reserved log id ≡ true
stored_reserved [] id event h = cc
stored_reserved ((other, change) ∷ log) id event h = elim (Bool-cases (id == other)) [
  | inl here ↦ rw here refl
  | inr later ↦ rw later (stored_reserved log id event (older change later h))
]
  where
    older :
        (c : Option Bytes)
        → (id == other) ≡ false
        → stored ((other, c) ∷ log) id ≡ some event
        → stored log id ≡ some event
    older none later h = rw later at h
    older (some e) later h = rw later at h

pub store_service : Store log_json calendar (codes "c")
unfolding serve do_get do_delete
store_service = record {
  stored = stored;
  get_stored = λ log id event bytes there. (
    log,
    (answer 200 event, rw (event_of-event_path id bytes) (found log id event there), refl, refl),
    refl,
  );
  delete_stored = λ log id old bytes there. (
    answer 204 [],
    (id, none) ∷ log,
    rw (event_of-event_path id bytes) (gone log id old there),
    inr refl,
    refl,
  );
}

-- It takes every object.
pub service : Service log_json calendar (codes "c")
unfolding serve on_post do_post do_put store_service
service = record {
  store = store_service;
  Takes = λ body. log_json.is_object body ≡ true;
  Accepts = λ body event. event ≡ body;
  reserved = reserved;
  stored_object = stored_object;
  stored_taken = stored_object;
  stored_reserved = stored_reserved;
  put_reserved = λ log id body bytes kept object _. (
    body,
    (id, some (drop 1 body)) ∷ log,
    (answer 200 body, rw (event_of-event_path id bytes) (replaced log id body kept), refl, refl),
    refl,
    stored_body log id body object,
  );
  post_new = λ log id body object _ member fresh. (
    body,
    (id, some (drop 1 body)) ∷ log,
    (answer 200 body, rw (chosen_id body id member) (added log id body fresh), refl, refl),
    refl,
    stored_body log id body object,
  );
  post_unnamed = λ log body object _ member. (
    free_id log,
    body,
    (free_id log, some (drop 1 body)) ∷ log,
    stored-free log,
    (answer 200 body, rw (chosen-none body member, on_post), refl, refl),
    refl,
    stored_body log (free_id log) body object,
  );
  post_reserved = λ log id body object _ member kept. (
    answer 409 [],
    log,
    rw (chosen_id body id member) (taken log id body kept),
    refl,
    refl,
    kept,
  );
}
