-- ===== src/Auth/ServiceAccount.antt =====
-- src/calendar/auth/service_account_auth.cpp: a signed assertion is exchanged for a token, which is
-- kept until shortly before it expires.
pub mod Jwt
pub mod Tokens
use duckdb_google_calendar.Common.{
  ℕ, [], ◌∷◌, ◌++◌, Bool, true, false, not, ◌||◌, Bytes, codes, is_empty, Option, none, some, ◌==◌,
  nat_eq, if◌then◌else◌,
}
use duckdb_google_calendar.Common.Int.{ℤ, pos, ◌+ℤ◌, ◌-ℤ◌, ltb_ℤ}
use duckdb_google_calendar.Common.Except.{
  Exec, Result, ok, io, pure, raise, lift, json_call, attempt, observe, ◌>>=◌, ◌>>◌,
}
use duckdb_google_calendar.Json.{JsonLib}
use duckdb_google_calendar.Auth.{bearer_header}
use duckdb_google_calendar.Transport.HttpType.{HttpClient, HttpHeaders, set_header, post_to}
use duckdb_google_calendar.Util.Encoding.{base64url_encode}
use duckdb_google_calendar.Util.Encoding.Pem.{normalize_pem_key}

abbrev pub token_ttl : ℤ
token_ttl = pos 1800

abbrev pub token_endpoint : Bytes
token_endpoint = codes "https://oauth2.googleapis.com/token"

pub record ServiceAccount : Type 0 where
  pub email : Bytes
  pub private_key : Bytes
  pub cached_token : Bytes
  pub expiration_time : ℤ

-- The calls of OpenSSL; `none` where one fails. The text of a key is read up to its first NUL.
pub record Openssl (W : Type 0) : Type 1 where
  pub Bio : Type 0
  pub Key : Type 0
  pub Context : Type 0
  pub new_mem_buf : Bytes → W → Option Bio × W
  pub read_private_key : Bio → W → Option Key × W
  pub new_context : W → Option Context × W
  pub digest_sign_init : Context → Key → W → Option Context × W
  pub digest_sign_update : Context → Bytes → W → Option Context × W
  -- `EVP_DigestSignFinal` without a buffer gives a length, and with one of that length the signature.
  pub digest_sign_length : Context → W → Option ℕ × W
  pub digest_sign_final : Context → ℕ → W → Option Bytes × W

abbrev pub jwt_header : Bytes
jwt_header = codes "{\"alg\":\"RS256\",\"typ\":\"JWT\"}"

module _ {W : Type 0} (ssl : Openssl W) where
  unfoldable pub sign : Bytes → Bytes → Exec W Bytes
  sign pem sign_input = do
    bio ← attempt (ssl.new_mem_buf pem) (io "Failed to create BIO for private key" [])
    key ← attempt (ssl.read_private_key bio) (io "Failed to parse private key" [])
    fresh ← attempt ssl.new_context (io "Failed to create EVP_MD_CTX" [])
    ready ← attempt (ssl.digest_sign_init fresh key) (io "Failed to initialize signing context" [])
    fed ←
        attempt (ssl.digest_sign_update ready sign_input) (io "Failed to update signing context" [])
    sig_len ← attempt (ssl.digest_sign_length fed) (io "Failed to get signature length" [])
    attempt (ssl.digest_sign_final fed sig_len) (io "Failed to sign JWT" [])

module _ (J : JsonLib) {W : Type 0} where
  unfoldable pub claim_set : Bytes → ℤ → Exec W J.Json
  claim_set email now = do
    c1 ← lift (json_call (J.put J.null "iss" (J.from_string email)))
    c2 ← lift (
        json_call
          (J.put c1 "scope" (J.from_string (codes "https://www.googleapis.com/auth/calendar"))))
    c3 ← lift (json_call (J.put c2 "aud" (J.from_string token_endpoint)))
    c4 ← lift (json_call (J.put c3 "iat" (J.from_int now)))
    lift (json_call (J.put c4 "exp" (J.from_int (now +ℤ token_ttl))))

-- The body of the exchange.
unfoldable pub grant_body : Bytes → Bytes
grant_body jwt = codes "grant_type=urn:ietf:params:oauth:grant-type:jwt-bearer&assertion=" ++ jwt

unfoldable pub form_headers : HttpHeaders
form_headers = set_header "Content-Type" (codes "application/x-www-form-urlencoded") []

module _ {W : Type 0} where
  -- A step that leaves the account alone.
  abbrev pub aside : {A : Type 0} → Exec W A → Exec (ServiceAccount × W) A
  aside m (account, w) = ((m w).0, (account, (m w).1))

  abbrev set_token : Bytes → Exec (ServiceAccount × W) (Unit {0})
  set_token token (account, w) = (ok tt, (record account { cached_token = token }, w))

  abbrev set_expiration : ℤ → Exec (ServiceAccount × W) (Unit {0})
  set_expiration t (account, w) = (ok tt, (record account { expiration_time = t }, w))

-- `responseJson.value("expires_in", TOKEN_TTL)` of an object.
unfoldable pub expires_in : (J : JsonLib) → J.Json → Result ℤ
expires_in J response = elim (J.member response "expires_in") [
  | none ↦ ok token_ttl
  | some v ↦ json_call (J.get_int v)
]

module _ (J : JsonLib) {W : Type 0} (time : W → ℤ × W) where
  -- The token is stored first, and the lifetime read then.
  unfoldable pub store_token : J.Json → J.Json → Exec (ServiceAccount × W) (Unit {0})
  store_token response access_token = do
    token ← lift (json_call (J.as_string access_token))
    _ ← set_token token
    lifetime ← lift (expires_in J response)
    now ← aside (observe time)
    set_expiration ((now +ℤ lifetime) -ℤ pos 60)

  unfoldable pub store_response : Bytes → Exec (ServiceAccount × W) (Unit {0})
  store_response body = elim (J.parse body) [
    | none ↦ raise (io "Failed to parse token response: " (body ∷ []))
    | some response ↦ elim (J.member response "access_token") [
      | none ↦ raise (io "Token response missing 'access_token': " (body ∷ []))
      | some access_token ↦ store_token response access_token
    ]
  ]

module _ (J : JsonLib) {W : Type 0} (ssl : Openssl W) (time : W → ℤ × W) where
  unfoldable pub create_jwt : ServiceAccount → Exec W Bytes
  create_jwt account = do
    now ← observe time
    claims ← claim_set J account.email now
    let sign_input = base64url_encode jwt_header ++ (b'.' ∷ base64url_encode (J.dump claims))
    signature ← sign ssl (normalize_pem_key account.private_key) sign_input
    pure (sign_input ++ (b'.' ∷ base64url_encode signature))

  module _ (http : HttpClient W) where
    unfoldable pub exchange_jwt_for_token : Exec (ServiceAccount × W) (Unit {0})
    exchange_jwt_for_token (account, w) =
        (do
          jwt ← aside (create_jwt account)
          response ← aside (post_to http token_endpoint form_headers (grant_body jwt))
          if not (response.status_code == 200)
              then raise (io "Token exchange failed: " (response.body ∷ []))
              else store_response J time response.body)
          (account, w)

    -- `IsExpired` reads the clock only where there is a token.
    unfoldable pub is_expired : Exec (ServiceAccount × W) Bool
    is_expired (account, w) =
        if is_empty account.cached_token
        then (ok true, (account, w))
        else (ok (not (ltb_ℤ (time w).0 account.expiration_time)), (account, (time w).1))

    unfoldable pub refresh : Exec (ServiceAccount × W) (Unit {0})
    refresh = exchange_jwt_for_token

    abbrev bearer : Exec (ServiceAccount × W) Bytes
    bearer (account, w) = (ok (bearer_header account.cached_token), (account, w))

    unfoldable pub get_authorization_header : Exec (ServiceAccount × W) Bytes
    unfolding is_expired
    get_authorization_header =
        is_expired >>= (λ expired. (if expired then refresh else pure tt) >> bearer)
