-- ===== src/Transport/Url.antt =====
-- `HttpLibClient::ParseUrl` of src/calendar/transport/httplib_client.cpp
use mathlib.Core.Option
use duckdb_google_calendar.Common.{
  ℕ, ◌+◌, [], ◌∷◌, Option, none, some, Bytes, codes, find?, take, drop, ◌≡◌, refl, length,
}
use duckdb_google_calendar.Common.Except.{Result, ok, throw, io}

abbrev scheme_sep : Bytes
scheme_sep = codes "://"

-- `url.find('/', from)`
abbrev find_slash_from : Bytes → ℕ → Option ℕ
find_slash_from url from = Option.map (λ k. from + k) (find? (drop from url) (b'/' ∷ []))

-- The base URL and the path.
pub parse_url : Bytes → Result (Bytes × Bytes)
parse_url url = elim (find? url scheme_sep) [
  | none ↦ throw (io "Invalid URL: " (url ∷ []))
  | some scheme_end ↦ elim (find_slash_from url (scheme_end + length scheme_sep)) [
    | none ↦ ok (url, codes "/")
    | some path_start ↦ ok (take path_start url, drop path_start url)
  ]
]

parse_token_endpoint :
    parse_url (codes "https://oauth2.googleapis.com/token")
    ≡ ok (codes "https://oauth2.googleapis.com", codes "/token")
unfolding parse_url find?
parse_token_endpoint = refl
