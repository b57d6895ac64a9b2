-- ===== src/Extension.antt =====
-- What the extension registers with the engine: src/google_calendar_extension.cpp, and `Register` of
-- src/calendar_auth.cpp.
pub mod Options
use duckdb_google_calendar.Common.{List, [], ◌∷◌, ◌++◌, String, ◌==◌, string_eq, if◌then◌else◌}
use duckdb_google_calendar.Sql.{LogicalType}

-- The function that makes a secret.
pub data Creator : Type 0 where
  create_secret_from_access_token create_secret_from_oauth create_secret_from_key_file : Creator

pub record CreateSecretFunction : Type 0 where
  pub secret_type : String
  pub provider : String
  pub function : Creator
  pub named_parameters : List (String × LogicalType)

pub record SecretType : Type 0 where
  pub name : String
  pub default_provider : String

-- The engine's loader: what was registered, in its order.
pub record ExtensionLoader : Type 0 where
  pub secret_types : List SecretType
  pub functions : List CreateSecretFunction
  pub storage_extensions : List String

-- `named_parameters[name] = …`
unfoldable pub set_parameter :
    String → LogicalType → List (String × LogicalType) → List (String × LogicalType)
set_parameter name type [] = (name, type) ∷ []
set_parameter name type ((n, t) ∷ parameters) =
    let rest = set_parameter name type parameters in
    if n == name then (name, type) ∷ parameters else (n, t) ∷ rest

unfoldable pub with_parameter : String → CreateSecretFunction → CreateSecretFunction
unfolding set_parameter
with_parameter name function = record function {
  named_parameters = set_parameter name LogicalType.varchar function.named_parameters;
}

unfoldable pub register_common_secret_parameters : CreateSecretFunction → CreateSecretFunction
unfolding with_parameter
register_common_secret_parameters function = with_parameter "token" function

unfoldable pub secret_function : String → Creator → CreateSecretFunction
secret_function provider function = record {
  secret_type = "google_calendar";
  provider = provider;
  function = function;
  named_parameters = [];
}

unfoldable pub key_file_function : CreateSecretFunction
unfolding register_common_secret_parameters secret_function
key_file_function = register_common_secret_parameters (
    with_parameter "secret" (
      with_parameter "email" (
        with_parameter "key_env"
          (with_parameter "filepath" (secret_function "key_file" create_secret_from_key_file)))))

unfoldable pub register : ExtensionLoader → ExtensionLoader
unfolding key_file_function
register loader = record loader {
  secret_types =
      loader.secret_types ++ (record { name = "google_calendar"; default_provider = "oauth" } ∷ []);
  functions =
      loader.functions
      ++ (register_common_secret_parameters
            (secret_function "access_token" create_secret_from_access_token)
          ∷ register_common_secret_parameters (secret_function "oauth" create_secret_from_oauth)
          ∷ key_file_function
          ∷ []);
}

-- `LoadInternal`; OpenSSL is set up before, which shows nowhere else.
unfoldable pub load_internal : ExtensionLoader → ExtensionLoader
unfolding register
load_internal loader = record (register loader) {
  storage_extensions = loader.storage_extensions ++ ("google_calendar" ∷ []);
}

unfoldable pub extension_name : String
extension_name = "google_calendar"
