-- ===== src/Transport/HttpType.antt =====
-- src/include/calendar/transport/http_type.hpp and http_client.hpp.
use duckdb_google_calendar.Common.{ℕ, String, List, [], ◌∷◌, Bytes, ◌==◌, string_eq, if◌then◌else◌}
use duckdb_google_calendar.Common.Except.{Exec}

pub data HttpMethod : Type 0 where
  get post put del : HttpMethod

-- `std::map<string, string>` as its entries; nothing here reads their order.
abbrev pub HttpHeaders : Type 0
HttpHeaders = List (String × Bytes)

-- `headers[key] = value`
unfoldable pub set_header : String → Bytes → HttpHeaders → HttpHeaders
set_header key value [] = (key, value) ∷ []
set_header key value ((k, v) ∷ headers) =
    if k == key then (key, value) ∷ headers else (k, v) ∷ set_header key value headers

pub record HttpRequest : Type 0 where
  pub method : HttpMethod
  pub url : Bytes
  pub headers : HttpHeaders
  pub body : Bytes

pub record HttpResponse : Type 0 where
  pub status_code : ℕ
  pub headers : HttpHeaders
  pub body : Bytes

pub record HttpProxyConfig : Type 0 where
  pub host : Bytes
  pub port : ℕ
  pub username : Bytes
  pub password : Bytes

-- `IHttpClient`: one virtual method. `W` is what a call reads and changes: the client's own state,
-- the network and the server.
pub record HttpClient (W : Type 0) : Type 0 where
  pub execute : HttpRequest → Exec W HttpResponse

-- `IHttpClient::Post`
unfoldable pub post_to :
    {W : Type 0} → HttpClient W → Bytes → HttpHeaders → Bytes → Exec W HttpResponse
post_to client url headers body =
    client.execute (record { method = HttpMethod.post; url = url; headers = headers; body = body })
