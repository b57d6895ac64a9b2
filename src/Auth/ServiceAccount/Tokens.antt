-- ===== src/Auth/ServiceAccount/Tokens.antt =====
-- Which token a service account shows: one that is in its time, or a fresh one.
use duckdb_google_calendar.Common.{
  [], ◌∷◌, ◌++◌, if◌then◌else◌, true, false, not, Bytes, codes, is_empty, some, ◌≡◌, refl, ◌⊎◌, inl,
  inr, Bool-cases, Option-cases, ◌==◌, nat_eq, ap,
}
use duckdb_google_calendar.Common.Int.{ℤ, pos, ◌+ℤ◌, ◌-ℤ◌, ltb_ℤ}
use duckdb_google_calendar.Common.Except.{
  Exec, Result, ok, throw, io, Result-cases, Gives, bind-Gives, weaken-Gives, raise, ◌>>◌,
}
use duckdb_google_calendar.Json.{JsonLib}
use duckdb_google_calendar.Transport.HttpType.{HttpClient, HttpResponse, post_to}
use duckdb_google_calendar.Auth.{bearer_header}
use duckdb_google_calendar.Auth.ServiceAccount.{
  Openssl, ServiceAccount, token_endpoint, form_headers, grant_body, create_jwt, expires_in, aside,
  store_token, store_response, exchange_jwt_for_token, is_expired, refresh, bearer,
  get_authorization_header,
}

module _ {W : Type 0} where
  pub aside-Gives :
      {A : Type 0} (m : Exec W A) (account : ServiceAccount) (w : W)
      → Gives {W = ServiceAccount × W}
          (λ a s. (s.0 ≡ account) × (m w ≡ (ok a, s.1)))
          (aside m (account, w))
  aside-Gives {A = A} m account w = go (m w)
    where
      go :
          (p : Result A × W)
          → Gives {W = ServiceAccount × W}
              (λ a s. (s.0 ≡ account) × (p ≡ (ok a, s.1)))
              (p.0, (account, p.1))
      go (ok a, w1) = (refl, refl)
      go (throw e, w1) = tt

module _ (J : JsonLib) {W : Type 0} (time : W → ℤ × W) where
  -- The account holds the token of this answer, until a minute before its lifetime is over by the
  -- clock as it was read behind the answer.
  abbrev pub Holds : J.Json → ServiceAccount → Type 0
  Holds response account =
      (access_token : J.Json) × (lifetime : ℤ) × (w : W) × (J.member response "access_token"
        ≡ some access_token)
      × (J.as_string access_token ≡ some account.cached_token)
      × (expires_in J response ≡ ok lifetime)
      × (account.expiration_time ≡ (((time w).0 +ℤ lifetime) -ℤ pos 60))

  store_token-Holds :
      (response access_token : J.Json) (account : ServiceAccount) (w : W)
      → J.member response "access_token" ≡ some access_token
      → Gives {W = ServiceAccount × W}
          (λ _ s. Holds response s.0)
          (store_token J time response access_token (account, w))
  unfolding store_token
  store_token-Holds response access_token account w here =
      elim (Option-cases (J.as_string access_token)) [
        | inl absent ↦ rw absent tt
        | inr (token, is) ↦ elim (Result-cases (expires_in J response)) [
          | inl (e, bad) ↦ rw (is, bad) tt
          | inr (lifetime, good) ↦ rw (is, good) (access_token, lifetime, w, here, is, refl, refl)
        ]
      ]

  store_response-Holds :
      (body : Bytes) (account : ServiceAccount) (w : W)
      → Gives {W = ServiceAccount × W}
          (λ _ s. (response : J.Json) × (J.parse body ≡ some response) × Holds response s.0)
          (store_response J time body (account, w))
  unfolding store_response
  store_response-Holds body account w = elim (Option-cases (J.parse body)) [
    | inl absent ↦ rw (absent, store_response) tt
    | inr (response, parsed) ↦ elim (Option-cases (J.member response "access_token")) [
      | inl absent ↦ rw (parsed, absent, store_response) tt
      | inr (access_token, here) ↦
          rw (parsed, here, store_response)
            (weaken-Gives _ (λ _ s. Holds response s.0)
              (store_token J time response access_token (account, w))
              (λ _ s holds. (response, refl, holds))
              (store_token-Holds response access_token account w here))
    ]
  ]

  module _ (ssl : Openssl W) (http : HttpClient W) where
    -- A fresh token: an assertion of the account was sent to the token endpoint, and the answer, with
    -- status 200, has it.
    abbrev pub Fresh : ServiceAccount → ServiceAccount → Type 0
    Fresh before account =
        (jwt : Bytes) × (w0 : W) × (w1 : W) × (reply : HttpResponse) × (response : J.Json)
        × ((create_jwt J ssl time before w0).0 ≡ ok jwt)
        × ((post_to http (codes "https://oauth2.googleapis.com/token") form_headers (grant_body jwt)
              w1).0
            ≡ ok reply)
        × (reply.status_code ≡ 200)
        × (J.parse reply.body ≡ some response)
        × Holds response account

    exchange-Fresh :
        (account : ServiceAccount) (w : W)
        → Gives {W = ServiceAccount × W}
            (λ _ s. Fresh account s.0)
            (exchange_jwt_for_token J ssl time http (account, w))
    unfolding exchange_jwt_for_token
    exchange-Fresh account w =
        bind-Gives {W = ServiceAccount × W} (λ _ s. Fresh account s.0) _ _
          (aside (create_jwt J ssl time account)) (account, w)
          (aside-Gives (create_jwt J ssl time account) account w)
          λ jwt (a1, w1) (_, made).
            bind-Gives {W = ServiceAccount × W} (λ _ s. Fresh account s.0)
              (λ response.
                if not (response.status_code == 200)
                then raise (io "Token exchange failed: " (response.body ∷ []))
                else store_response J time response.body)
              _ (aside (post_to http token_endpoint form_headers (grant_body jwt))) (a1, w1)
              (aside-Gives (post_to http token_endpoint form_headers (grant_body jwt)) a1 w1)
              λ reply (a2, w2) (_, sent). elim (Bool-cases (reply.status_code == 200)) [
                | inr other ↦ rw other tt
                | inl fine ↦ rw fine (
                    weaken-Gives _ _ (store_response J time reply.body (a2, w2))
                      (λ _ s (response, parsed, holds). (
                        jwt,
                        w,
                        w1,
                        reply,
                        response,
                        ap (λ p. p.0) made,
                        ap (λ p. p.0) sent,
                        (nat_eq.beq_iff reply.status_code 200).0 fine,
                        parsed,
                        holds,
                      ))
                      (store_response-Holds reply.body a2 w2))
              ]

    -- The token is that of the account as it was, whose time is not over by the clock, and nothing
    -- but the clock was looked at.
    abbrev pub Reused : ServiceAccount → W → ServiceAccount → W → Type 0
    Reused before w account w' =
        (account ≡ before)
        × (w' ≡ (time w).1)
        × (is_empty before.cached_token ≡ false)
        × (ltb_ℤ (time w).0 before.expiration_time ≡ true)

    abbrev pub Shows : ServiceAccount → W → Bytes → ServiceAccount × W → Type 0
    Shows before w header s =
        (header ≡ codes "Bearer " ++ s.0.cached_token)
        × (Reused before w s.0 s.1 ⊎ Fresh before s.0)

    refresh-Shows :
        (before account : ServiceAccount) (w w1 : W)
        → (before ≡ account)
        → Gives {W = ServiceAccount × W}
            (Shows before w)
            ((refresh J ssl time http >> bearer J ssl time http) (account, w1))
    unfolding refresh bearer_header
    refresh-Shows before account w w1 same =
        bind-Gives {W = ServiceAccount × W} (Shows before w) _ (λ _ s. Fresh account s.0)
          (refresh J ssl time http) (account, w1) (exchange-Fresh account w1)
          λ _ s fresh. (refl, inr (rw same fresh))

    -- A header that a service account gives is that of the token which it then holds. Either the
    -- account had a token whose time by the clock was not over, and nothing was changed or looked
    -- at but the clock; or an assertion of the account was sent to the token endpoint in this call
    -- and answered with status 200, and the account has the token of the answer, and a time that
    -- is a minute before the end of its lifetime.
    pub get_authorization_header-Shows :
        (account : ServiceAccount) (w : W)
        → Gives {W = ServiceAccount × W}
            (Shows account w)
            (get_authorization_header J ssl time http (account, w))
    unfolding get_authorization_header is_expired bearer_header
    get_authorization_header-Shows account w = elim (Bool-cases (is_empty account.cached_token)) [
      | inl empty ↦ rw (empty, get_authorization_header) (refresh-Shows account account w w refl)
      | inr token ↦ elim (Bool-cases (ltb_ℤ (time w).0 account.expiration_time)) [
        | inl early ↦
            rw (token, early, get_authorization_header) (refl, inl (refl, refl, token, early))
        | inr late ↦
            rw (token, late, get_authorization_header)
              (refresh-Shows account account w (time w).1 refl)
      ]
    ]
