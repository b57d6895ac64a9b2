-- ===== src/Auth/Oauth/Redirect.antt =====
-- When the flow exchanges a code: only behind a redirect with the state that it sent.
use duckdb_google_calendar.Common.{
  String, List, [], ◌∷◌, ◌++◌, false, Bytes, is_empty, none, some, ◌≡◌, ◌≢◌, refl, ◌⊎◌, inl, inr,
  ◌==◌, bytes_eq, Bool-cases, Option-cases, ◌∙◌, subst, sym,
}
use duckdb_google_calendar.Common.Except.{Exec, Result, throw, Exception, continue, ◌>>=◌}
use duckdb_google_calendar.Json.{JsonLib}
use duckdb_google_calendar.Auth.Oauth.{Desktop, Captured, Redirect, no_captured, handle, handle_all}
use duckdb_google_calendar.Auth.Oauth.Flow.{await_redirect, finish_flow, exchange_code}

-- One of the requests has this value for this parameter.
abbrev pub Carries : String → Bytes → List Redirect → Type 0
Carries key value [] = ⊥
Carries key value (req ∷ reqs) = (req key ≡ some value) ⊎ Carries key value reqs

module _ (key : String) (field : Captured → Bytes)
    (kept : (c : Captured) (req : Redirect) → req key ≡ none → field (handle c req) ≡ field c)
    (taken : (c : Captured) (req : Redirect) (v : Bytes)
      → req key ≡ some v
      → field (handle c req) ≡ v) where
  -- What the handler has kept in the end is as it was, or of one of the requests.
  captured_cases :
      (c : Captured) (reqs : List Redirect)
      → (field (handle_all c reqs) ≡ field c) ⊎ Carries key (field (handle_all c reqs)) reqs
  unfolding handle_all
  captured_cases c [] = inl refl
  captured_cases c (req ∷ reqs) = elim (captured_cases (handle c req) reqs) [
    | inr later ↦ inr (inr later)
    | inl same ↦ elim (Option-cases (req key)) [
      | inl absent ↦ inl (same ∙ kept c req absent)
      | inr (v, here) ↦
          let e : field (handle_all (handle c req) reqs) ≡ v = same ∙ taken c req v here in
          rw e (inr (inl here))
    ]
  ]

captured-state :
    (c : Captured) (reqs : List Redirect)
    → ((handle_all c reqs).state ≡ c.state) ⊎ Carries "state" (handle_all c reqs).state reqs
captured-state = captured_cases "state" (λ c. c.state) kept taken
  where
    kept : (c : Captured) (req : Redirect) → req "state" ≡ none → (handle c req).state ≡ c.state
    kept c req h = unfold handle in rw h

    taken :
        (c : Captured) (req : Redirect) (v : Bytes)
        → req "state" ≡ some v
        → (handle c req).state ≡ v
    taken c req v h = unfold handle in rw h

captured-code :
    (c : Captured) (reqs : List Redirect)
    → ((handle_all c reqs).code ≡ c.code) ⊎ Carries "code" (handle_all c reqs).code reqs
captured-code = captured_cases "code" (λ c. c.code) kept taken
  where
    kept : (c : Captured) (req : Redirect) → req "code" ≡ none → (handle c req).code ≡ c.code
    kept c req h = unfold handle in rw h

    taken :
        (c : Captured) (req : Redirect) (v : Bytes) → req "code" ≡ some v → (handle c req).code ≡ v
    taken c req v h = unfold handle in rw h

nonempty_cases : (s : Bytes) → is_empty s ≡ false → s ≢ []
nonempty_cases [] h = λ _. absurd cc
nonempty_cases (c ∷ s) h = λ e. absurd cc

list_cases :
    (reqs : List Redirect)
    → (reqs ≡ []) ⊎ ((first : Redirect) × (later : List Redirect) × (reqs ≡ first ∷ later))
list_cases [] = inl refl
list_cases (first ∷ later) = inr (first, later, refl)

module _ {W : Type 0} (desktop : Desktop W) where
  -- The requests that the handler has worked off when it is stopped, and the world then.
  abbrev pub requests : W → List Redirect
  requests w = (desktop.wait_for w).0.0 ++ (desktop.wait_for w).0.1

  abbrev pub stopped : W → W
  stopped w = desktop.stop (desktop.wait_for w).1

module _ (J : JsonLib) (what : Bytes → Bytes) {W : Type 0} (desktop : Desktop W)
    (client_id client_secret code_verifier state redirect_uri : Bytes) where
  abbrev exchange : Bytes → Exec W Bytes
  exchange code =
      exchange_code J what desktop client_id client_secret code_verifier redirect_uri code

  abbrev finish : Captured → Exec W Bytes
  finish captured =
      finish_flow J what desktop client_id client_secret code_verifier state redirect_uri captured

  finish_cases :
      (captured : Captured) (w : W)
      → ((e : Exception) × (finish captured w ≡ (throw e, w)))
        ⊎ ((captured.state ≡ state)
            × (is_empty captured.code ≡ false)
            × (finish captured w ≡ exchange captured.code w))
  unfolding finish_flow
  finish_cases captured w = elim (Bool-cases (is_empty captured.error)) [
    | inr failed ↦ rw (failed, finish_flow) (inl (_, refl))
    | inl fine ↦ elim (Bool-cases (captured.state == state)) [
      | inr other ↦ rw (fine, other, finish_flow) (inl (_, refl))
      | inl same ↦ elim (Bool-cases (is_empty captured.code)) [
        | inl none_given ↦ rw (fine, same, none_given, finish_flow) (inl (_, refl))
        | inr given ↦ inr (
          (bytes_eq.beq_iff captured.state state).0 same,
          given,
          rw (fine, same, given, finish_flow) refl,
        )
      ]
    ]
  ]

  abbrev pub Outcome : W → Result Bytes × W → Type 0
  Outcome w p =
      ((e : Exception) × (p ≡ (throw e, stopped desktop w)))
      ⊎ ((code : Bytes) × (code ≢ [])
          × Carries "code" code (requests desktop w)
          × Carries "state" state (requests desktop w)
          × (p ≡ exchange code (stopped desktop w)))

  settled :
      (w : W)
      → state ≢ []
      → (let captured = handle_all no_captured (requests desktop w) in
          ((e : Exception) × (finish captured (stopped desktop w) ≡ (throw e, stopped desktop w)))
          ⊎ ((captured.state ≡ state)
              × (is_empty captured.code ≡ false)
              × (finish captured (stopped desktop w) ≡ exchange captured.code (stopped desktop w))))
      → Outcome w (finish (handle_all no_captured (requests desktop w)) (stopped desktop w))
  settled w sent (inl threw) = inl threw
  settled w sent (inr (same, given, ran)) =
      let reqs = requests desktop w in
      let code = (handle_all no_captured reqs).code in
      elim (captured-code no_captured reqs) [
        | inl unset ↦ absurd (nonempty_cases code given unset)
        | inr code_here ↦ elim (captured-state no_captured reqs) [
          | inl unset ↦ absurd (sent (sym same ∙ unset))
          | inr state_here ↦ inr (
            code,
            nonempty_cases code given,
            code_here,
            subst (λ v. Carries "state" v reqs) same state_here,
            ran,
          )
        ]
      ]

  -- From the wait for the redirect on.
  pub exchange-Carries :
      (w : W) → state ≢ [] → Outcome w ((await_redirect J what desktop >>= finish) w)
  unfolding await_redirect
  exchange-Carries w sent = elim (list_cases (desktop.wait_for w).0.0) [
    | inl timeout ↦ rw (timeout, continue) (inl (_, refl))
    | inr (first, later, some_came) ↦
        subst (Outcome w)
          (let e : finish (handle_all no_captured (requests desktop w)) (stopped desktop w)
                ≡ (await_redirect J what desktop >>= finish) w =
              rw (some_came, continue) refl in
            e)
          (settled w sent
            (finish_cases (handle_all no_captured (requests desktop w)) (stopped desktop w)))
  ]
