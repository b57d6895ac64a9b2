-- ===== src/Auth/Oauth/Interactive.antt =====
-- The flow in the browser as a whole: the state, the verifier and the redirect URI are the same in
-- the URL that it opens, in the check of the redirect and in the exchange.
use duckdb_google_calendar.Common.{
  ℕ, zero, suc, [], ◌++◌, Bytes, codes, ◌≡◌, ◌≢◌, refl, ◌⊎◌, inl, inr, length, subst, arith,
}
use duckdb_google_calendar.Common.Except.{
  Result, ok, throw, Exception, continue, outcome_cases, ◌>>=◌,
}
use duckdb_google_calendar.Json.{JsonLib}
use duckdb_google_calendar.Util.Encoding.{base64url_encode}
use duckdb_google_calendar.Auth.Oauth.{Desktop, auth_request_url, redirect_uri_of}
use duckdb_google_calendar.Auth.Oauth.Port.{desired_loopback_port}
use duckdb_google_calendar.Auth.Oauth.Flow.{
  generate_random_string, generate_pkce_verifier, pkce_challenge_s256, open_in_browser,
  bind_listener, await_redirect, finish_flow, exchange_code, interactive,
}
use duckdb_google_calendar.Auth.Oauth.Redirect.{
  Carries, requests, stopped, Outcome, exchange-Carries,
}

module _ (J : JsonLib) (what : Bytes → Bytes) {W : Type 0} (desktop : Desktop W) where
  random_length : (n : ℕ) (w : W) → length (generate_random_string J what desktop n w).0 ≡ n
  unfolding generate_random_string
  random_length zero w = refl
  random_length (suc n) w = omega (arith, random_length n (desktop.draw w).1)

  random_given : (w : W) → (generate_random_string J what desktop 32 w).0 ≢ []
  random_given w h = absurd (omega (arith, rw h at (random_length 32 w)))

  module _ (client_id client_secret : Bytes) where
    -- The URL of the consent page, by a verifier.
    abbrev pub consent_url : Bytes → Bytes → ℕ → Bytes
    consent_url code_verifier state port =
        auth_request_url client_id (redirect_uri_of port) state
          (base64url_encode (desktop.sha256 code_verifier))

    -- The listener is started, and the URL printed and opened.
    abbrev pub show_url : Bytes → W → W
    show_url url w =
        desktop.print (codes "Waiting for authorization in your browser...\n")
          (open_in_browser J what desktop url (
            desktop.print (url ++ codes "\n") (
              desktop.print (codes "Visit the below URL to authorize DuckDB Google Calendar\n")
                (desktop.listen w)))).1

    abbrev wish : ℕ
    wish = desired_loopback_port (desktop.getenv "GOOGLE_CALENDAR_OAUTH_REDIRECT_URI")

    -- Nothing was sent to the token endpoint: the flow ended at the verifier, at the listener, or
    -- behind the redirect with the listener stopped.
    abbrev pub Early : Exception → W → W → Type 0
    Early e w w' =
        (generate_pkce_verifier J what desktop w ≡ (throw e, w'))
        ⊎ (((w1 : W) × (bind_listener J what desktop wish w1 ≡ (throw e, w')))
            ⊎ ((url : Bytes) × (w1 : W) × (w' ≡ stopped desktop (show_url url w1))))

    abbrev pub Whole : W → Result Bytes × W → Type 0
    Whole w p =
        ((e : Exception) × (w' : W) × (p ≡ (throw e, w')) × Early e w w')
        ⊎ ((code_verifier : Bytes) × (state : Bytes) × (code : Bytes) × (port : ℕ) × (w1 : W)
            × (length state ≡ 32)
            × (code ≢ [])
            × Carries "code" code
                (requests desktop (show_url (consent_url code_verifier state port) w1))
            × Carries "state" state
                (requests desktop (show_url (consent_url code_verifier state port) w1))
            × (p
                ≡ exchange_code J what desktop client_id client_secret code_verifier
                    (redirect_uri_of port) code
                    (stopped desktop (show_url (consent_url code_verifier state port) w1))))

    -- From the wait on, for what was shown.
    shown :
        (code_verifier state : Bytes) (port : ℕ) (w w1 : W)
        → length state ≡ 32
        → (let url = consent_url code_verifier state port in
            Outcome J what desktop client_id client_secret code_verifier state
              (redirect_uri_of port)
              (show_url url w1)
              ((await_redirect J what desktop
                  >>= finish_flow J what desktop client_id client_secret code_verifier state
                      (redirect_uri_of port))
                (show_url url w1)))
        → Whole w (
            (await_redirect J what desktop
                >>= finish_flow J what desktop client_id client_secret code_verifier state
                    (redirect_uri_of port))
              (show_url (consent_url code_verifier state port) w1))
    shown code_verifier state port w w1 long (inl (e, threw)) =
        inl (e, _, threw, inr (inr (consent_url code_verifier state port, w1, refl)))
    shown code_verifier state port w w1 long (inr (code, given, code_here, state_here, ran)) =
        inr (code_verifier, state, code, port, w1, long, given, code_here, state_here, ran)

    shown_lem :
        (w w1 w2 : W) (code_verifier : Bytes) (port : ℕ)
        → generate_pkce_verifier J what desktop w ≡ (ok code_verifier, w1)
        → bind_listener J what desktop wish (generate_random_string J what desktop 32 w1).1
          ≡ (ok port, w2)
        → (let state = (generate_random_string J what desktop 32 w1).0 in
            (await_redirect J what desktop
                >>= finish_flow J what desktop client_id client_secret code_verifier state
                    (redirect_uri_of port))
              (show_url (consent_url code_verifier state port) w2)
            ≡ interactive J what desktop client_id client_secret w)
    unfolding interactive pkce_challenge_s256
    shown_lem w w1 w2 code_verifier port gave bound = rw (gave, bound, continue, interactive) refl

    -- The flow in the browser has two outcomes. Either it throws where no verifier could be made,
    -- where the listener could not be bound, or behind the wait for the redirect with no more than
    -- the listener stopped. Or there are a verifier, a state of 32 characters, a port and a code
    -- that is not empty, so that the URL that was shown carries the state, the redirect URI of the
    -- port and the challenge of the verifier, some request to the listener carried this state and
    -- some request this code, and the outcome is that of the exchange of the code with the same
    -- verifier and redirect URI.
    pub interactive_safe : (w : W) → Whole w (interactive J what desktop client_id client_secret w)
    unfolding interactive pkce_challenge_s256
    interactive_safe w = elim (outcome_cases (generate_pkce_verifier J what desktop w)) [
      | inl (e, w1, threw) ↦ rw (threw, continue, interactive) (inl (e, w1, refl, inl refl))
      | inr (code_verifier, w1, gave) ↦
          let sent = generate_random_string J what desktop 32 w1 in
          elim (outcome_cases (bind_listener J what desktop wish sent.1)) [
            | inl (e, w2, threw) ↦
                rw (gave, threw, continue, interactive)
                  (inl (e, w2, refl, inr (inl (sent.1, threw))))
            | inr (port, w2, bound) ↦
                subst (Whole w) (shown_lem w w1 w2 code_verifier port gave bound) (
                  shown code_verifier sent.0 port w w2 (random_length 32 w1) (
                    exchange-Carries J what desktop client_id client_secret code_verifier sent.0
                      (redirect_uri_of port) (show_url (consent_url code_verifier sent.0 port) w2)
                      (random_given w1)))
          ]
    ]
