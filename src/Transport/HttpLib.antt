-- ===== src/Transport/HttpLib.antt =====
-- `HttpLibClient::Execute` of src/calendar/transport/httplib_client.cpp
use duckdb_google_calendar.Common.{
  ℕ, [], ◌∷◌, Bytes, codes, is_empty, ◌⊎◌, inl, inr, ◌==◌, string_eq, if◌then◌else◌, Option, none,
  some,
}
use duckdb_google_calendar.Common.Except.{Exec, Result, ok, throw, io, lift, ◌>>=◌}
use duckdb_google_calendar.Transport.HttpType.{
  HttpClient, get, post, put, del, HttpHeaders, set_header, HttpRequest, HttpResponse,
  HttpProxyConfig,
}
use duckdb_google_calendar.Transport.Url.{parse_url}

-- What a client of the library is set up with: the proxy, and its user with the password.
pub record Setup : Type 0 where
  pub base_url : Bytes
  pub proxy : Option (Bytes × ℕ)
  pub proxy_auth : Option (Bytes × Bytes)

-- The library: a client with its four calls. A call gives a response, or the text of the error.
pub record HttpLib (W : Type 0) : Type 0 where
  pub get_call : Setup → Bytes → HttpHeaders → W → (HttpResponse ⊎ Bytes) × W
  pub post_call : Setup → Bytes → HttpHeaders → Bytes → Bytes → W → (HttpResponse ⊎ Bytes) × W
  pub put_call : Setup → Bytes → HttpHeaders → Bytes → Bytes → W → (HttpResponse ⊎ Bytes) × W
  pub delete_call : Setup → Bytes → HttpHeaders → W → (HttpResponse ⊎ Bytes) × W

unfoldable pub set_up : HttpProxyConfig → Bytes → Setup
set_up config base_url = record {
  base_url = base_url;
  proxy = if is_empty config.host then none else some (config.host, config.port);
  proxy_auth =
      if is_empty config.host
      then none
      else if is_empty config.username
      then none
      else some (config.username, config.password);
}

-- The loop over the headers: the type of the content, and the others.
unfoldable pub split_headers : HttpHeaders → Bytes → HttpHeaders → Bytes × HttpHeaders
split_headers [] content_type headers = (content_type, headers)
split_headers ((key, value) ∷ rest) content_type headers =
    let found = split_headers rest value headers in
    let more = split_headers rest content_type headers in
    if key == "Content-Type" then found else (more.0, (key, value) ∷ more.1)

-- `response.headers[h.first] = h.second` for each header of the library's multimap.
unfoldable pub copy_headers : HttpHeaders → HttpHeaders → HttpHeaders
copy_headers [] headers = headers
copy_headers ((key, value) ∷ rest) headers = copy_headers rest (set_header key value headers)

module _ {W : Type 0} (lib : HttpLib W) (config : HttpProxyConfig) where
  unfoldable pub send : Setup → HttpRequest → Bytes → W → (HttpResponse ⊎ Bytes) × W
  send client request path =
      let (content_type, headers) = split_headers request.headers (codes "application/json") [] in
      elim request.method [
        | get ↦ lib.get_call client path headers
        | post ↦ lib.post_call client path headers request.body content_type
        | put ↦ lib.put_call client path headers request.body content_type
        | del ↦ lib.delete_call client path headers
      ]

  abbrev answer : HttpResponse ⊎ Bytes → Result HttpResponse
  answer (inl result) = ok (record result { headers = copy_headers result.headers [] })
  answer (inr error) = throw (io "HTTP request failed: " (error ∷ []))

  unfoldable pub execute : HttpRequest → Exec W HttpResponse
  execute request = lift (parse_url request.url) >>= (λ (base_url, path).
      λ w. let p = send (set_up config base_url) request path w in (answer p.0, p.1))

  unfoldable pub http_lib_client : HttpClient W
  unfolding execute
  http_lib_client = record { execute = execute }
