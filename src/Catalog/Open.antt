-- ===== src/Catalog/Open.antt =====
-- The client that `LoadCatalog` of src/storage/calendar_catalog.cpp and `GetClient` of
-- src/storage/calendar_transaction.cpp make: the HTTP client, the provider from the secret, and the
-- client of the API over them.
use duckdb_google_calendar.Common.{ℕ, Bytes, Option}
use duckdb_google_calendar.Common.Int.{ℤ}
use duckdb_google_calendar.Common.Except.{Exec, Result, ◌>>=◌}
use duckdb_google_calendar.Json.{JsonLib}
use duckdb_google_calendar.Sql.{SqlLib}
use duckdb_google_calendar.Transport.HttpType.{HttpProxyConfig}
use duckdb_google_calendar.Transport.HttpLib.{HttpLib}
use duckdb_google_calendar.Transport.Factory.{Clients, create_http_client}
use duckdb_google_calendar.Auth.ServiceAccount.{Openssl}
use duckdb_google_calendar.Auth.Secret.{Entry, KeyValueSecret, create_auth_from_secret}
use duckdb_google_calendar.Auth.Connect.{connect}
use duckdb_google_calendar.Resources.Base.{Client}

-- What the process gives: the environment, files, the settings of the proxy, the HTTP library, sleep,
-- OpenSSL, the clock and the version; and the secret manager with its two ways to a secret.
module _ (J : JsonLib) (S : SqlLib) {W : Type 0} (getenv read_file : Bytes → Option Bytes)
    (proxy : Result HttpProxyConfig) (lib : HttpLib W) (sleep_up_to : ℕ → W → W)
    (ssl : Openssl (Clients W)) (time : Clients W → ℤ × Clients W) (version : Bytes)
    (by_name : Bytes → Option (Entry S)) (match : Option (KeyValueSecret S)) where
  unfoldable pub open_client : Bytes → Exec (Clients W) (Client (Clients W))
  open_client secret_name = do
    http ← create_http_client J getenv read_file proxy lib sleep_up_to
    connect J ssl time http version (create_auth_from_secret S by_name match secret_name)
