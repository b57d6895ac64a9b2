-- ===== src/Auth/Oauth/Flow.antt =====
-- The steps of the authorization-code flow of src/calendar_auth.cpp, from `GenerateRandomString` to
-- `InitiateOAuthFlow`.
use mathlib.Core.Option
use duckdb_google_calendar.Common.{
  ℕ, zero, suc, String, [], ◌∷◌, ◌++◌, Bool, true, false, not, Bytes, codes, is_empty, Option, none,
  some, inl, inr, ◌==◌, string_eq, nat_eq, bytes_eq, if◌then◌else◌, get_or,
}
use duckdb_google_calendar.Common.Int.{pos, negsuc}
use duckdb_google_calendar.Common.Decimal.{to_string}
use duckdb_google_calendar.Common.Except.{
  Exec, ok, throw, io, binder, pure, raise, lift, json_call, attempt, observe, ◌>>=◌,
}
use duckdb_google_calendar.Json.{JsonLib}
use duckdb_google_calendar.Transport.HttpType.{HttpResponse}
use duckdb_google_calendar.Util.Encoding.{base64url_encode}
use duckdb_google_calendar.Auth.Oauth.{
  Desktop, Captured, Params, no_captured, handle_all, charset, keychain_service, nonempty,
  redirect_uri_of, auth_request_url, browser_command, refresh_params, code_params,
}
use duckdb_google_calendar.Auth.Oauth.Port.{desired_loopback_port}

-- `what` is the text of the exception that a text that is no JSON makes.
module _ (J : JsonLib) (what : Bytes → Bytes) {W : Type 0} (desktop : Desktop W) where
  abbrev pub step : (W → W) → Exec W (Unit {0})
  step f w = (ok tt, f w)

  unfoldable pub generate_random_string : ℕ → W → Bytes × W
  generate_random_string zero w = ([], w)
  generate_random_string (suc length) w =
      let (i, w1) = desktop.draw w in
      let (rest, w2) = generate_random_string length w1 in (get_or charset i 0 ∷ rest, w2)

  unfoldable pub generate_pkce_verifier : Exec W Bytes
  generate_pkce_verifier = do
    buf ←
        attempt (desktop.rand_bytes 32)
          (io "Failed to generate PKCE code verifier (RAND_bytes failed)" [])
    pure (base64url_encode buf)

  unfoldable pub pkce_challenge_s256 : Bytes → Bytes
  pkce_challenge_s256 verifier = base64url_encode (desktop.sha256 verifier)

  -- On Linux a browser is opened only where there is a display.
  unfoldable pub open_in_browser : Bytes → W → Bool × W
  unfolding browser_command
  open_in_browser url w = elim (desktop.getenv "DISPLAY") [
    | some _ ↦ (true, desktop.system (browser_command url) w)
    | none ↦ elim (desktop.getenv "WAYLAND_DISPLAY") [
      | some _ ↦ (true, desktop.system (browser_command url) w)
      | none ↦ (false, w)
    ]
  ]

  -- A response of the token endpoint with status 200; `request` says which request it answers.
  unfoldable pub post_token : String → String → Params → Exec W HttpResponse
  post_token no_answer refused params w = elim (desktop.post_form (codes "/token") params w).0 [
    | inr error ↦
        (throw (io no_answer (error ∷ [])), (desktop.post_form (codes "/token") params w).1)
    | inl result ↦ (
      if not (result.status_code == 200)
          then throw (io refused (to_string result.status_code ∷ result.body ∷ []))
          else ok result,
      (desktop.post_form (codes "/token") params w).1,
    )
  ]

  unfoldable pub refresh_access_token : Bytes → Bytes → Bytes → Exec W Bytes
  refresh_access_token client_id client_secret refresh_token = do
    result ←
        post_token "OAuth token refresh request failed: %s"
          "OAuth token refresh failed (HTTP %s): %s"
          (refresh_params client_id client_secret refresh_token)
    resp ← lift (json_call (J.parse result.body))
    elim (J.member resp "access_token") [
      | none ↦
          raise (
            io "OAuth token refresh response did not contain an access_token: %s"
              (result.body ∷ []))
      | some token ↦ lift (json_call (J.as_string token))
    ]

  unfoldable pub bind_listener : ℕ → Exec W ℕ
  bind_listener desired_port =
      if not (desired_port == 0)
      then observe (desktop.bind_to_port desired_port) >>= (λ bound.
        if bound
        then pure desired_port
        else raise (
            io
              "Could not bind OAuth loopback listener to 127.0.0.1:%s (set by GOOGLE_CALENDAR_OAUTH_REDIRECT_URI)"
              (to_string desired_port ∷ [])))
      else observe desktop.bind_to_any_port >>= (λ port. elim port [
        | pos n ↦ pure n
        | negsuc n ↦ raise (io "Could not bind OAuth loopback listener to 127.0.0.1" [])
      ])

  -- The wait, with the listener stopped behind it, and what the handler has kept by then.
  unfoldable pub await_redirect : Exec W Captured
  await_redirect = observe desktop.wait_for >>= (λ (before, after). step desktop.stop >>= (λ _.
      elim before [
        | [] ↦ raise (
            io
              "Timed out waiting for Google OAuth authorization (no redirect received in 5 minutes)"
              [])
        | first ∷ later ↦ pure (handle_all no_captured (first ∷ (later ++ after)))
      ]))

  -- The refresh token is kept for the next run.
  unfoldable pub store_refresh_token : Bytes → J.Json → Exec W (Unit {0})
  store_refresh_token client_id response = elim (J.member response "refresh_token") [
    | none ↦ pure tt
    | some token ↦
        lift (json_call (J.as_string token))
        >>= (λ t. step (desktop.keychain_set keychain_service client_id t))
  ]

  unfoldable pub exchange_code : Bytes → Bytes → Bytes → Bytes → Bytes → Exec W Bytes
  exchange_code client_id client_secret code_verifier redirect_uri captured_code = do
    result ←
        post_token "OAuth token exchange request failed: %s"
          "OAuth token exchange failed (HTTP %s): %s"
          (code_params captured_code client_id client_secret code_verifier redirect_uri)
    elim (J.parse result.body) [
      | none ↦ raise (io "Could not parse OAuth token response: %s" (what result.body ∷ []))
      | some response ↦ elim (J.member response "access_token") [
        | none ↦
            raise (io "OAuth token response did not contain an access_token: %s" (result.body ∷ []))
        | some token ↦
            store_refresh_token client_id response >>= (λ _. lift (json_call (J.as_string token)))
      ]
    ]

  -- From the redirect on.
  unfoldable pub finish_flow : Bytes → Bytes → Bytes → Bytes → Bytes → Captured → Exec W Bytes
  finish_flow client_id client_secret code_verifier state redirect_uri captured =
      if not (is_empty captured.error)
      then raise (io "Google OAuth authorization failed: %s" (captured.error ∷ []))
      else if not (captured.state == state)
      then raise (io "Google OAuth state mismatch (possible CSRF); aborting." [])
      else if is_empty captured.code
      then raise (io "Google OAuth authorization did not return a code." [])
      else exchange_code client_id client_secret code_verifier redirect_uri captured.code

  -- The flow in the browser.
  unfoldable pub interactive : Bytes → Bytes → Exec W Bytes
  interactive client_id client_secret = do
    code_verifier ← generate_pkce_verifier
    state ← observe (generate_random_string 32)
    port ←
        bind_listener (desired_loopback_port (desktop.getenv "GOOGLE_CALENDAR_OAUTH_REDIRECT_URI"))
    _ ← step desktop.listen
    let url =
        auth_request_url client_id (redirect_uri_of port) state (pkce_challenge_s256 code_verifier)
    _ ← step (desktop.print (codes "Visit the below URL to authorize DuckDB Google Calendar\n"))
    _ ← step (desktop.print (url ++ codes "\n"))
    _ ← observe (open_in_browser url)
    _ ← step (desktop.print (codes "Waiting for authorization in your browser...\n"))
    captured ← await_redirect
    finish_flow client_id client_secret code_verifier state (redirect_uri_of port) captured

  -- A refresh token of the keyring is tried first; where it is of no use the browser is.
  unfoldable pub with_cached : Bytes → Bytes → Option Bytes → Exec W Bytes
  with_cached client_id client_secret none w = interactive client_id client_secret w
  with_cached client_id client_secret (some cached_refresh) w =
      elim (refresh_access_token client_id client_secret cached_refresh w).0 [
        | ok token ↦ (ok token, (refresh_access_token client_id client_secret cached_refresh w).1)
        | throw e ↦
            interactive client_id client_secret
              (desktop.warn e (refresh_access_token client_id client_secret cached_refresh w).1)
      ]

  unfoldable pub initiate_oauth_flow : Exec W Bytes
  initiate_oauth_flow = elim (nonempty (desktop.getenv "GOOGLE_CALENDAR_OAUTH_CLIENT_ID")) [
    | none ↦ raise (
        binder
          "The 'oauth' provider requires a registered Google OAuth client. Set GOOGLE_CALENDAR_OAUTH_CLIENT_ID (and GOOGLE_CALENDAR_OAUTH_CLIENT_SECRET for Desktop-app clients), or use the 'key_file' / 'access_token' provider."
          [])
    | some client_id ↦ observe (desktop.keychain_get keychain_service client_id) >>= (λ cached.
        with_cached client_id
          (Option.get_or (nonempty (desktop.getenv "GOOGLE_CALENDAR_OAUTH_CLIENT_SECRET")) [])
          (nonempty cached))
  ]
