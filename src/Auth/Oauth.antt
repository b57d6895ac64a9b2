-- ===== src/Auth/Oauth.antt =====
-- The authorization-code flow of src/calendar_auth.cpp: the parts of a flow, its requests, and the
-- flow itself.
pub mod Port
pub mod Url
pub mod Redirect
pub mod Interactive
pub mod Flow
use mathlib.Core.Option
use duckdb_google_calendar.Common.{
  ℕ, zero, suc, String, List, [], ◌∷◌, ◌++◌, Bool, true, false, not, ◌&&◌, ◌||◌, Bytes, codes,
  is_empty, Option, none, some, ◌⊎◌, inl, inr, ◌==◌, string_eq, nat_eq, bytes_eq, if◌then◌else◌,
  get_or,
}
use duckdb_google_calendar.Common.Int.{ℤ, pos, negsuc}
use duckdb_google_calendar.Common.Decimal.{to_string}
use duckdb_google_calendar.Common.Except.{
  Exec, Result, ok, throw, Exception, io, binder, pure, raise, lift, json_call, attempt, observe,
  ◌>>=◌,
}
use duckdb_google_calendar.Json.{JsonLib}
use duckdb_google_calendar.Transport.HttpType.{HttpResponse}
use duckdb_google_calendar.Util.Encoding.{base64url_encode}
use duckdb_google_calendar.Util.Query.{url_encode}

-- What the listener reads from a request: the first value of each of its parameters.
abbrev pub Redirect : Type 0
Redirect = String → Option Bytes

-- The parameters of a form, as they are added; the library sorts them.
abbrev pub Params : Type 0
Params = List (String × Bytes)

-- What the flow calls: the environment, the generators of random numbers, SHA-256, the keyring, the
-- listener, the browser and a client for the token endpoint.
pub record Desktop (W : Type 0) : Type 0 where
  pub getenv : String → Option Bytes
  pub rand_bytes : ℕ → W → Option Bytes × W
  pub sha256 : Bytes → Bytes
  -- One draw of `dist(gen)`, below the length of the set of characters.
  pub draw : W → ℕ × W
  pub keychain_get : Bytes → Bytes → W → Option Bytes × W
  pub keychain_set : Bytes → Bytes → Bytes → W → W
  pub bind_to_port : ℕ → W → Bool × W
  pub bind_to_any_port : W → ℤ × W
  -- The thread of the listener is started, and stopped.
  pub listen : W → W
  pub stop : W → W
  pub print : Bytes → W → W
  -- What is printed of an exception.
  pub warn : Exception → W → W
  pub system : Bytes → W → W
  -- The requests that the handler works off until the wait of five minutes ends, which is at the
  -- first of them, and those that it works off before it is stopped.
  pub wait_for : W → (List Redirect × List Redirect) × W
  -- The answer of a POST, or the text of the error.
  pub post_form : Bytes → Params → W → (HttpResponse ⊎ Bytes) × W

-- The keyring of a platform without one.
abbrev pub no_keychain_get : {W : Type 0} → Bytes → Bytes → W → Option Bytes × W
no_keychain_get service account w = (none, w)

abbrev pub no_keychain_set : {W : Type 0} → Bytes → Bytes → Bytes → W → W
no_keychain_set service account secret w = w

abbrev pub keychain_service : Bytes
keychain_service = codes "duckdb-google-calendar"

abbrev pub charset : Bytes
charset = codes "ABCDEFGHIJKLMNOPQRSTUVWXYZabcdefghijklmnopqrstuvwxyz0123456789"

-- What the handler has kept of the requests.
pub record Captured : Type 0 where
  pub code : Bytes
  pub state : Bytes
  pub error : Bytes

abbrev pub no_captured : Captured
no_captured = record { code = []; state = []; error = [] }

-- `if (req.has_param(...)) { captured_... = req.get_param_value(...); }` for each of three.
unfoldable pub handle : Captured → Redirect → Captured
handle captured req = record {
  code = Option.get_or (req "code") captured.code;
  state = Option.get_or (req "state") captured.state;
  error = Option.get_or (req "error") captured.error;
}

unfoldable pub handle_all : Captured → List Redirect → Captured
unfolding handle
handle_all captured [] = captured
handle_all captured (req ∷ reqs) = handle_all (handle captured req) reqs

-- The page that the handler answers with.
unfoldable pub page : Captured → Bytes
page captured =
    codes "<!doctype html><html><body style=\"font-family:sans-serif\"><h2>"
    ++ ((if is_empty captured.error && not (is_empty captured.code)
          then codes "Authorization complete"
          else codes "Authorization failed")
        ++ codes "</h2><p>You can close this tab and return to DuckDB.</p></body></html>")

abbrev pub redirect_uri_of : ℕ → Bytes
redirect_uri_of port = codes "http://127.0.0.1:" ++ to_string port

abbrev pub scope : Bytes
scope = codes "https://www.googleapis.com/auth/calendar"

unfoldable pub auth_request_url : Bytes → Bytes → Bytes → Bytes → Bytes
auth_request_url client_id redirect_uri state code_challenge =
    codes "https://accounts.google.com/o/oauth2/v2/auth?response_type=code&client_id="
    ++ (url_encode client_id
        ++ (codes "&redirect_uri="
            ++ (url_encode redirect_uri
                ++ (codes "&scope="
                    ++ (url_encode scope
                        ++ (codes "&state="
                            ++ (url_encode state
                                ++ (codes "&code_challenge="
                                    ++ (url_encode code_challenge
                                        ++ codes
                                            "&code_challenge_method=S256&access_type=offline&prompt=consent")))))))))

-- The command that opens it.
unfoldable pub browser_command : Bytes → Bytes
browser_command url = codes "xdg-open \"" ++ (url ++ codes "\"")

-- An environment variable that is set and not empty.
abbrev pub nonempty : Option Bytes → Option Bytes
nonempty none = none
nonempty (some []) = none
nonempty (some (c ∷ s)) = some (c ∷ s)

-- `if (!client_secret.empty()) { params.emplace("client_secret", client_secret); }`
abbrev pub with_client_secret : Bytes → Params → Params
with_client_secret [] params = params
with_client_secret (c ∷ s) params = ("client_secret", c ∷ s) ∷ params

unfoldable pub refresh_params : Bytes → Bytes → Bytes → Params
refresh_params client_id client_secret refresh_token =
    ("client_id", client_id)
    ∷ with_client_secret client_secret
        (("refresh_token", refresh_token) ∷ ("grant_type", codes "refresh_token") ∷ [])

unfoldable pub code_params : Bytes → Bytes → Bytes → Bytes → Bytes → Params
code_params captured_code client_id client_secret code_verifier redirect_uri =
    ("code", captured_code)
    ∷ ("client_id", client_id)
    ∷ with_client_secret client_secret (
        ("code_verifier", code_verifier)
        ∷ ("grant_type", codes "authorization_code")
        ∷ ("redirect_uri", redirect_uri)
        ∷ [])
