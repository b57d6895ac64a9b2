-- ===== src/Resources/Base.antt =====
-- `BaseResource` with its four verbs, and `ParseResponse`.
use duckdb_google_calendar.Common.{
  codes, is_empty, [], ◌++◌, Bytes, none, some, not, ◌==◌, nat_eq, if◌then◌else◌,
}
use duckdb_google_calendar.Common.Except.{Exec, Result, ok, throw, calendar_api, calendar_parse}
use duckdb_google_calendar.Json.{JsonLib}
use duckdb_google_calendar.Transport.HttpType.{
  HttpClient, HttpHeaders, set_header, HttpMethod, HttpRequest, HttpResponse,
}

-- `GoogleCalendarClient`, whose resources share its three members.
pub record Client (W : Type 0) : Type 0 where
  pub http : HttpClient W
  pub headers : HttpHeaders
  pub base_url : Bytes

module _ {W : Type 0} (client : Client W) where
  abbrev request : HttpMethod → Bytes → Bytes → HttpRequest
  request method path body = record {
    method = method;
    url = client.base_url ++ path;
    headers = client.headers;
    body = body;
  }

  unfoldable pub do_get : Bytes → Exec W HttpResponse
  do_get path = client.http.execute (request HttpMethod.get path [])

  unfoldable pub do_post : Bytes → Bytes → Exec W HttpResponse
  do_post path body = client.http.execute (request HttpMethod.post path body)

  unfoldable pub do_put : Bytes → Bytes → Exec W HttpResponse
  do_put path body = client.http.execute (request HttpMethod.put path body)

  unfoldable pub do_delete : Bytes → Exec W HttpResponse
  do_delete path = client.http.execute (request HttpMethod.del path [])

-- `ParseResponse<json>`
unfoldable pub parse_response : (J : JsonLib) → HttpResponse → Result J.Json
parse_response J response =
    if not (response.status_code == 200)
    then throw (calendar_api response.status_code response.body)
    else elim (J.parse response.body) [ none ↦ throw calendar_parse | some j ↦ ok j ]

-- `BuildHeaders`; the empty version is that of a build without one.
unfoldable pub build_headers : Bytes → Bytes → HttpHeaders
unfolding set_header
build_headers authorization version =
    set_header "User-Agent"
      (codes "duckdb-google-calendar/" ++ (if is_empty version then codes "dev" else version))
      (set_header "Accept" (codes "application/json") (
        set_header "Content-Type" (codes "application/json")
          (set_header "Authorization" authorization [])))
