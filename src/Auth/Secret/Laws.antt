-- ===== src/Auth/Secret/Laws.antt =====
-- What a created secret shows, and which provider is made from it.
use duckdb_google_calendar.Common.{
  String, List, [], ◌∷◌, Bool, true, false, ◌||◌, Bytes, Option, none, some, ◌==◌, string_eq, ◌≡◌,
  refl, All, inl, inr,
}
use duckdb_google_calendar.Common.Except.{
  Exec, Result, ok, throw, bind, Result-cases, Ensures, continue, pure, lift, ◌>>=◌, outcome_cases,
}
use duckdb_google_calendar.Json.{JsonLib}
use duckdb_google_calendar.Sql.{SqlLib, IsLawful}
use duckdb_google_calendar.Auth.Secret.{
  bearer_token_auth, service_account_auth, new_account, KeyValueSecret, Options, set_value,
  try_get_value, copy_found, copy_secret, new_secret, key_secret, create_secret_from_access_token,
  create_secret_from_oauth, key_of_options, create_secret_from_key_file, build_provider,
}

abbrev pub among : String → List String → Bool
among key [] = false
among key (k ∷ keys) = let rest = among key keys in k == key || rest

module _ (S : SqlLib) where
  -- Each entry is redacted where the secret is shown, but for the e-mail address.
  abbrev pub IsRedacted : KeyValueSecret S → Type 0
  IsRedacted secret =
      All (λ e. (e.0 == "email" || among e.0 secret.redact_keys) ≡ true) secret.secret_map

  abbrev pub Made : Result (KeyValueSecret S) → Type 0
  Made (ok secret) = IsRedacted secret
  Made (throw e) = Unit

  access_token-IsRedacted :
      (options : Options S) → IsRedacted (create_secret_from_access_token S options)
  unfolding create_secret_from_access_token copy_secret set_value
  access_token-IsRedacted options = go (options "token")
    where
      go :
          (o : Option S.Value)
          → IsRedacted (copy_found S "token" o (new_secret S "access_token" ("token" ∷ [])))
      go none = tt
      go (some v) = (refl, tt)

  oauth-IsRedacted :
      {W : Type 0} (flow : Exec W Bytes) (w : W)
      → Ensures IsRedacted (create_secret_from_oauth S flow w)
  unfolding create_secret_from_oauth set_value
  oauth-IsRedacted flow w = elim (outcome_cases (flow w)) [
    | inl (e, w', threw) ↦ rw (threw, continue) tt
    | inr (token, w', gave) ↦ rw (gave, continue) (refl, tt)
  ]

  module _ (cast_varchar : S.Value → Option S.Value) (J : JsonLib)
      (read_file getenv : Bytes → Option Bytes) (what : Bytes → Bytes) where
    key_file-Made :
        (options : Options S)
        → Made (create_secret_from_key_file S cast_varchar J read_file getenv what options)
    unfolding create_secret_from_key_file copy_secret set_value
    key_file-Made options =
        elim (Result-cases (key_of_options S cast_varchar J read_file getenv what options)) [
          | inl (e, bad) ↦ rw (bad, create_secret_from_key_file) tt
          | inr ((email, key), good) ↦
              rw (good, create_secret_from_key_file) (go email key (options "filepath"))
        ]
      where
        go :
            (email key : Bytes) (o : Option S.Value)
            → IsRedacted (copy_found S "filepath" o (key_secret S email key))
        go email key none = (refl, (refl, tt))
        go email key (some v) = (refl, (refl, (refl, tt)))

    -- In a secret of any of the three providers, from any options, each entry is redacted where
    -- the secret is shown, but for the e-mail address.
    pub created-IsRedacted :
        {W : Type 0} (flow : Exec W Bytes) (w : W) (options : Options S)
        → IsRedacted (create_secret_from_access_token S options)
          × Ensures IsRedacted (create_secret_from_oauth S flow w)
          × Made (create_secret_from_key_file S cast_varchar J read_file getenv what options)
    created-IsRedacted flow w options =
        (access_token-IsRedacted options, oauth-IsRedacted flow w, key_file-Made options)

    module _ (L : IsLawful S) where
      build-key_file :
          (options : Options S)
          → bind
              (create_secret_from_key_file S cast_varchar J read_file getenv what options)
              (build_provider S)
            ≡ bind
                (key_of_options S cast_varchar J read_file getenv what options)
                (λ (email, key). ok (service_account_auth (new_account email key)))
      unfolding create_secret_from_key_file copy_secret set_value build_provider try_get_value
      build-key_file options =
          elim (Result-cases (key_of_options S cast_varchar J read_file getenv what options)) [
            | inl (e, bad) ↦ rw (bad, create_secret_from_key_file) refl
            | inr ((email, key), good) ↦
                rw (good, create_secret_from_key_file) (go email key (options "filepath"))
          ]
        where
          go :
              (email key : Bytes) (o : Option S.Value)
              → build_provider S (copy_found S "filepath" o (key_secret S email key))
                ≡ ok (service_account_auth (new_account email key))
          go email key none = rw (L.to_string-varchar email, L.to_string-varchar key) refl
          go email key (some v) = rw (L.to_string-varchar email, L.to_string-varchar key) refl

      build-oauth :
          {W : Type 0} (flow : Exec W Bytes) (w : W)
          → (create_secret_from_oauth S flow >>= (λ secret. lift (build_provider S secret))) w
            ≡ (flow >>= (λ token. pure (bearer_token_auth token))) w
      unfolding create_secret_from_oauth set_value build_provider try_get_value
      build-oauth flow w = elim (outcome_cases (flow w)) [
        | inl (e, w', threw) ↦ rw (threw, continue) refl
        | inr (token, w', gave) ↦ rw (gave, continue, L.to_string-varchar token) refl
      ]

      -- From the secret that the options make with a key, a provider is made for exactly the
      -- e-mail address and the key that were read, and from the secret of the flow in the browser
      -- one for exactly its token; where reading the key or the flow throws, so does the whole.
      pub build-create :
          {W : Type 0} (flow : Exec W Bytes) (w : W) (options : Options S)
          → (bind
                (create_secret_from_key_file S cast_varchar J read_file getenv what options)
                (build_provider S)
              ≡ bind
                  (key_of_options S cast_varchar J read_file getenv what options)
                  (λ (email, key). ok (service_account_auth (new_account email key))))
            × ((create_secret_from_oauth S flow >>= (λ secret. lift (build_provider S secret))) w
                ≡ (flow >>= (λ token. pure (bearer_token_auth token))) w)
      build-create flow w options = (build-key_file options, build-oauth flow w)
