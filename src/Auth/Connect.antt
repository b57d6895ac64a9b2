-- ===== src/Auth/Connect.antt =====
-- A client for the API from a secret: the constructor of `GoogleCalendarClient`
-- (src/include/calendar/client.hpp), as `LoadCatalog` of src/storage/calendar_catalog.cpp and
-- `GetClient` of src/storage/calendar_transaction.cpp call it.
use duckdb_google_calendar.Common.{[], Bytes, codes, Option, none, some}
use duckdb_google_calendar.Common.Int.{ℤ}
use duckdb_google_calendar.Common.Except.{Exec, Result, ok, invalid_input, pure, raise, lift, ◌>>=◌}
use duckdb_google_calendar.Json.{JsonLib}
use duckdb_google_calendar.Transport.HttpType.{HttpClient}
use duckdb_google_calendar.Resources.Base.{Client, build_headers}
use duckdb_google_calendar.Auth.{bearer_header}
use duckdb_google_calendar.Auth.ServiceAccount.{Openssl, get_authorization_header}
use duckdb_google_calendar.Auth.Secret.{AuthProvider, bearer_token_auth, service_account_auth}

abbrev pub default_calendar_api_url : Bytes
default_calendar_api_url = codes "https://www.googleapis.com/calendar/v3"

module _ (J : JsonLib) {W : Type 0} (ssl : Openssl W) (time : W → ℤ × W) (http : HttpClient W)
    (version : Bytes) where
  -- `auth.GetAuthorizationHeader()`; the account is not asked again.
  unfoldable pub authorization : AuthProvider → Exec W Bytes
  authorization (bearer_token_auth token) w = (ok (bearer_header token), w)
  authorization (service_account_auth account) w = (
    (get_authorization_header J ssl time http (account, w)).0,
    (get_authorization_header J ssl time http (account, w)).1.1,
  )

  -- The headers are made once, with the token of that time.
  unfoldable pub new_client : AuthProvider → Exec W (Client W)
  unfolding authorization
  new_client auth = do
    header ← authorization auth
    pure (record {
      http = http;
      headers = build_headers header version;
      base_url = default_calendar_api_url;
    })

  -- `auth` is what `CreateAuthFromSecret` gives.
  unfoldable pub connect : Result (Option AuthProvider) → Exec W (Client W)
  connect auth = lift auth >>= (λ provider. elim provider [
    | none ↦ raise (
        invalid_input
          "No google_calendar secret found. Create one with CREATE SECRET (TYPE google_calendar, ...) or pass SECRET <name> to ATTACH."
          [])
    | some p ↦ new_client p
  ])
