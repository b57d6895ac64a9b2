-- ===== src/Extension/Options.antt =====
-- The options that the functions registered in src/calendar_auth.cpp read.
use duckdb_google_calendar.Common.{
  [], map, Bytes, Option, none, ◌≡◌, refl, All, if◌then◌else◌, string_eq,
}
use duckdb_google_calendar.Common.Except.{Exec, pure, lift}
use duckdb_google_calendar.Json.{JsonLib}
use duckdb_google_calendar.Sql.{SqlLib}
use duckdb_google_calendar.Auth.Secret as Secret
use duckdb_google_calendar.Auth.Secret.{
  KeyValueSecret, Options, copy_secret, get_string_option, from_options, key_of_options,
}
use duckdb_google_calendar.Auth.Secret.Laws.{among}
use duckdb_google_calendar.Extension.{
  Creator, create_secret_from_access_token, create_secret_from_oauth, create_secret_from_key_file,
  CreateSecretFunction, ExtensionLoader, set_parameter, with_parameter,
  register_common_secret_parameters, secret_function, key_file_function, register, load_internal,
}

-- A loader that nothing is registered with.
abbrev pub fresh_loader : ExtensionLoader
fresh_loader = record { secret_types = []; functions = []; storage_extensions = [] }

module _ (S : SqlLib) {W : Type 0} (flow : Exec W Bytes) (cast_varchar : S.Value → Option S.Value)
    (J : JsonLib) (read_file getenv : Bytes → Option Bytes) (what : Bytes → Bytes) where
  -- The secret that a function makes from options; `flow` is the flow in the browser.
  abbrev pub made_by : Creator → Options S → Exec W (KeyValueSecret S)
  made_by create_secret_from_access_token options =
      pure (Secret.create_secret_from_access_token S options)
  made_by create_secret_from_oauth options = Secret.create_secret_from_oauth S flow
  made_by create_secret_from_key_file options =
      lift (Secret.create_secret_from_key_file S cast_varchar J read_file getenv what options)

  -- The options that are parameters of a function.
  abbrev pub named : CreateSecretFunction → Options S → Options S
  named function options name =
      if among name (map (λ p. p.0) function.named_parameters) then options name else none

  -- Each function that the loaded extension has registered for making secrets makes the same
  -- secret, or the same exception, from any options as from those of them that are registered as
  -- its parameters: it reads no option that is not registered.
  pub load_internal-named :
      (options : Options S)
      → All
          (λ function.
            made_by function.function (named function options) ≡ made_by function.function options)
          (load_internal fresh_loader).functions
  unfolding load_internal register key_file_function register_common_secret_parameters
      with_parameter set_parameter secret_function copy_secret get_string_option from_options
      key_of_options Secret.create_secret_from_access_token Secret.create_secret_from_key_file
  load_internal-named options = (refl, (refl, (refl, tt)))
