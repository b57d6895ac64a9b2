-- ===== src/Auth/Secret.antt =====
-- The secrets of the extension (CreateSecretFrom... of src/calendar_auth.cpp) and the choice of a
-- provider from one (src/calendar/auth_factory.cpp), with the options that they read
-- (src/calendar/util/options.cpp).
pub mod Laws
use mathlib.Core.Option
use duckdb_google_calendar.Common.{
  String, List, [], ◌∷◌, ◌++◌, Bool, true, false, not, ◌||◌, Bytes, codes, is_empty, Option, none,
  some, ◌==◌, string_eq, if◌then◌else◌,
}
use duckdb_google_calendar.Common.Int.{pos}
use duckdb_google_calendar.Common.Except.{
  Exec, Result, ok, throw, bind, io, binder, invalid_input, json_call, pure, ◌>>=◌,
}
use duckdb_google_calendar.Json.{JsonLib}
use duckdb_google_calendar.Sql.{SqlLib}
use duckdb_google_calendar.Auth.ServiceAccount.{ServiceAccount}

-- `IAuthProvider` with its two classes.
pub data AuthProvider : Type 0 where
  bearer_token_auth : Bytes → AuthProvider
  service_account_auth : ServiceAccount → AuthProvider

-- An account as the constructor of `ServiceAccountAuth` makes it.
abbrev pub new_account : Bytes → Bytes → ServiceAccount
new_account email private_key = record {
  email = email;
  private_key = private_key;
  cached_token = [];
  expiration_time = pos 0;
}

module _ (S : SqlLib) where
  -- The keys that the code uses are all in lower case, so that the engine's folding of case does not
  -- come in.
  pub record KeyValueSecret : Type 0 where
    pub provider : String
    pub secret_map : List (String × S.Value)
    pub redact_keys : List String

  unfoldable pub set_value : String → S.Value → List (String × S.Value) → List (String × S.Value)
  set_value key value [] = (key, value) ∷ []
  set_value key value ((k, v) ∷ entries) =
      let rest = set_value key value entries in
      if k == key then (key, value) ∷ entries else (k, v) ∷ rest

  -- `TryGetValue`
  unfoldable pub try_get_value : String → List (String × S.Value) → Option S.Value
  try_get_value key [] = none
  try_get_value key ((k, v) ∷ entries) = if k == key then some v else try_get_value key entries

  abbrev pub put_secret : String → S.Value → KeyValueSecret → KeyValueSecret
  put_secret key value secret = record secret { secret_map = set_value key value secret.secret_map }

  -- The options of CREATE SECRET, by `find`.
  abbrev pub Options : Type 0
  Options = String → Option S.Value

  abbrev pub copy_found : String → Option S.Value → KeyValueSecret → KeyValueSecret
  copy_found key none result = result
  copy_found key (some value) result = put_secret key value result

  unfoldable pub copy_secret : String → Options → KeyValueSecret → KeyValueSecret
  copy_secret key options result = copy_found key (options key) result

  abbrev pub new_secret : String → List String → KeyValueSecret
  new_secret provider redact_keys = record {
    provider = provider;
    secret_map = [];
    redact_keys = redact_keys;
  }

  abbrev pub key_secret : Bytes → Bytes → KeyValueSecret
  key_secret email secret = put_secret "secret" (S.varchar secret) (
      put_secret "email" (S.varchar email)
        (new_secret "key_file" ("secret" ∷ "filepath" ∷ "token" ∷ [])))

  unfoldable pub create_secret_from_access_token : Options → KeyValueSecret
  create_secret_from_access_token options =
      copy_secret "token" options (new_secret "access_token" ("token" ∷ []))

  -- `InitiateOAuthFlow` gives the token.
  unfoldable pub create_secret_from_oauth : {W : Type 0} → Exec W Bytes → Exec W KeyValueSecret
  create_secret_from_oauth initiate_oauth_flow = do
    token ← initiate_oauth_flow
    pure (put_secret "token" (S.varchar token) (new_secret "oauth" ("token" ∷ [])))

  -- `DefaultTryCastAs(VARCHAR)`
  module _ (cast_varchar : S.Value → Option S.Value) where
    unfoldable pub get_string_option : Options → String → Result Bytes
    get_string_option options name = elim (options name) [
      | none ↦ ok []
      | some value ↦ elim (cast_varchar value) [
        | none ↦ throw (binder "%s option must be VARCHAR" (codes name ∷ []))
        | some val ↦
            if S.is_null val
            then throw (binder "%s option must not be NULL" (codes name ∷ []))
            else ok (S.to_string val)
      ]
    ]

    -- Files and the environment, and the text of the exception that a text that is no JSON makes.
    module _ (J : JsonLib) (read_file getenv : Bytes → Option Bytes) (what : Bytes → Bytes) where
      abbrev fields : J.Json → Option (J.Json × J.Json)
      fields credentials =
          Option.bind (J.member credentials "client_email")
            (λ email. Option.map (λ key. (email, key)) (J.member credentials "private_key"))

      -- The e-mail address and the private key.
      unfoldable pub parse_service_account_key_json : Bytes → Bytes → Result (Bytes × Bytes)
      parse_service_account_key_json content source = elim (J.parse content) [
        | none ↦ throw (
            io "Could not parse Google service-account JSON from %s: %s"
              (source ∷ what content ∷ []))
        | some credentials ↦ elim (fields credentials) [
          | some (email, key) ↦
              bind (json_call (J.as_string email))
                (λ e. bind (json_call (J.as_string key)) (λ k. ok (e, k)))
          | none ↦ throw (
              io
                "Google service-account JSON from %s is missing required fields 'client_email' and/or 'private_key'"
                (source ∷ []))
        ]
      ]

      unfoldable pub from_file : Bytes → Result (Bytes × Bytes)
      from_file filepath = elim (read_file filepath) [
        | none ↦ throw (io "Could not open JSON key file at: " (filepath ∷ []))
        | some content ↦
            parse_service_account_key_json content (codes "file '" ++ (filepath ++ codes "'"))
      ]

      unfoldable pub from_env : Bytes → Result (Bytes × Bytes)
      from_env key_env =
          let raw = Option.get_or (getenv key_env) [] in
          if is_empty raw
          then throw (
              binder "Environment variable '%s' named by key_env is not set or is empty"
                (key_env ∷ []))
          else parse_service_account_key_json raw
              (codes "environment variable '" ++ (key_env ++ codes "'"))

      unfoldable pub from_options : Options → Result (Bytes × Bytes)
      unfolding get_string_option
      from_options options = bind (get_string_option options "email") (λ email.
          if is_empty email
          then throw (
              binder
                "key_file provider requires one of: 'filepath', 'key_env', or 'email' + 'secret'"
                [])
          else bind (get_string_option options "secret") (λ secret.
            if is_empty secret
            then throw (binder "Must provide secret value if not using filepath or key_env" [])
            else ok (email, secret)))

      unfoldable pub key_of_options : Options → Result (Bytes × Bytes)
      key_of_options options = bind (get_string_option options "filepath") (λ filepath.
          bind (get_string_option options "key_env") (λ key_env.
            if not (is_empty filepath)
            then from_file filepath
            else if not (is_empty key_env)
            then from_env key_env
            else from_options options))

      unfoldable pub create_secret_from_key_file : Options → Result KeyValueSecret
      create_secret_from_key_file options =
          bind (key_of_options options)
            (λ (email, secret). ok (copy_secret "filepath" options (key_secret email secret)))

  unfoldable pub build_provider : KeyValueSecret → Result AuthProvider
  build_provider kv =
      if kv.provider == "key_file"
      then elim (try_get_value "email" kv.secret_map) [
        | none ↦ throw (invalid_input "'email' not found in google_calendar secret" [])
        | some email ↦ elim (try_get_value "secret" kv.secret_map) [
          | none ↦ throw (invalid_input "'secret' not found in google_calendar secret" [])
          | some key ↦ ok (service_account_auth (new_account (S.to_string email) (S.to_string key)))
        ]
      ]
      else elim (try_get_value "token" kv.secret_map) [
        | none ↦ throw (invalid_input "'token' not found in google_calendar secret" [])
        | some token ↦ ok (bearer_token_auth (S.to_string token))
      ]

  -- The secret manager's two ways to a secret: by its name, where it may be of another kind, and the
  -- one that matches the type.
  pub data Entry : Type 0 where
    key_value : KeyValueSecret → Entry
    of_other_kind : Entry

  unfoldable pub create_auth_from_secret :
      (Bytes → Option Entry) → Option KeyValueSecret → Bytes → Result (Option AuthProvider)
  unfolding build_provider
  create_auth_from_secret by_name match secret_name =
      if not (is_empty secret_name)
      then elim (by_name secret_name) [
        | none ↦ throw (invalid_input "google_calendar secret '%s' not found" (secret_name ∷ []))
        | some of_other_kind ↦
            throw (invalid_input "Secret '%s' is not a google_calendar secret" (secret_name ∷ []))
        | some (key_value kv) ↦ bind (build_provider kv) (λ provider. ok (some provider))
      ]
      else elim match [
        | none ↦ ok none
        | some kv ↦ bind (build_provider kv) (λ provider. ok (some provider))
      ]
