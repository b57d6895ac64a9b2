-- ===== src/Tests/Factory.antt =====
-- A client with a fixture of two responses, of which the first may be retried.
use duckdb_google_calendar.Common.{
  [], ◌∷◌, Option, some, Bytes, codes, ◌≡◌, refl, inl, inr, arith, string_eq,
}
use duckdb_google_calendar.Common.Int.{pos}
use duckdb_google_calendar.Common.Except.{ok}
use duckdb_google_calendar.Json.{JsonLib}
use duckdb_google_calendar.Json.Assoc.{Doc, str, int, arr, obj, end, field, nil, cons, assoc_json}
use duckdb_google_calendar.Transport.HttpType.{
  HttpMethod, HttpClient, HttpRequest, HttpResponse, set_header,
}
use duckdb_google_calendar.Transport.Proxy.{default_proxy}
use duckdb_google_calendar.Transport.Retry.{is_retryable}
use duckdb_google_calendar.Transport.HttpLib.{HttpLib}
use duckdb_google_calendar.Transport.Factory.{
  Clients, create_http_client, load_response, entry_headers, to_status,
}
use duckdb_google_calendar.Transport.Factory.Answers.{left_at, create_http_client-Answers}

abbrev responses : Doc
responses = arr (
    cons (obj (field "status" (int (pos 503)) end)) (
      cons
        (obj (
          field "body" (str (codes "{}"))
            (field "headers" (obj (field "Etag" (str (codes "e")) end)) end)))
        nil))

abbrev fixture : Doc
fixture = obj (field "responses" responses end)

abbrev fixture_json : JsonLib
fixture_json = record assoc_json { parse = λ text. some fixture }

abbrev environment : Bytes → Option Bytes
environment name = some (codes "fixture.json")

abbrev files : Bytes → Option Bytes
files path = some (codes "{ ... }")

abbrev refused : HttpResponse
refused = record { status_code = 503; headers = []; body = [] }

abbrev answered : HttpResponse
answered = record { status_code = 200; headers = ("Etag", codes "e") ∷ []; body = codes "{}" }

-- A library that is never called here.
abbrev library : HttpLib (Unit {0})
library = record {
  get_call = λ setup path headers w. (inr [], w);
  post_call = λ setup path headers body type w. (inr [], w);
  put_call = λ setup path headers body type w. (inr [], w);
  delete_call = λ setup path headers w. (inr [], w);
}

abbrev list_request : HttpRequest
list_request = record {
  method = HttpMethod.get;
  url = codes "/calendars/c/events";
  headers = [];
  body = [];
}

abbrev no_clients : Clients (Unit {0})
no_clients = record { mocks = []; outside = tt }

fixture_example :
    (client : HttpClient (Clients (Unit {0}))) × (made : Clients (Unit {0})) × (done : Clients
      (Unit {0}))
    × (create_http_client fixture_json environment files
          (ok default_proxy)
          library
          (λ d w. w)
          no_clients
        ≡ (ok client, made))
    × (client.execute list_request made ≡ (ok answered, done))
    × (left_at 0 done ≡ [])
    × (done.outside ≡ tt)
unfolding is_retryable load_response entry_headers to_status set_header
fixture_example =
    create_http_client-Answers fixture_json environment files (ok default_proxy) library (λ d w. w)
      (codes "fixture.json") (codes "{ ... }") fixture responses (refused ∷ []) answered []
      list_request no_clients refl refl refl refl refl (refl, (refl, tt)) (refl, tt) (omega arith)
      (inl refl)
