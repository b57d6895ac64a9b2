-- ===== src/Auth.antt =====
-- Who calls the API: the bearer token and the choice of a provider
-- (src/calendar/auth/bearer_token_auth.cpp, src/calendar/auth_factory.cpp).
pub mod ServiceAccount
pub mod Secret
pub mod Oauth
pub mod Connect
use duckdb_google_calendar.Common.{Bytes, codes, ◌++◌}

-- `BearerTokenAuth` is its token.
unfoldable pub bearer_header : Bytes → Bytes
bearer_header token = codes "Bearer " ++ token
