-- ===== src/Tests/Auth.antt =====
-- Runs of the theorems about tokens, secrets and the flow in the browser.
use duckdb_google_calendar.Common.{
  ℕ, suc, [], All, ◌∷◌, ◌++◌, Option, none, some, some-injective, true, Bytes, IsBytes,
  all_bytes-IsBytes, codes, ◌≡◌, refl, inr, subst, ◌==◌, string_eq, if◌then◌else◌, arith,
}
use duckdb_google_calendar.Common.Int.{ℤ, pos}
use duckdb_google_calendar.Common.Decimal.{to_string}
use duckdb_google_calendar.Common.Except.{Exec, ok, bind, Ensures, Gives, pure, lift, ◌>>=◌}
use duckdb_google_calendar.Json.{JsonLib}
use duckdb_google_calendar.Json.Assoc.{
  Doc, nul, bool, int, arr, obj, str, end, field, assoc_json, assoc_json-IsLawful,
}
use duckdb_google_calendar.Sql.Simple.{Cell, text, simple_sql, simple_sql-IsLawful}
use duckdb_google_calendar.Transport.HttpType.{HttpResponse}
use duckdb_google_calendar.Transport.Mock.{MockHttpClient, mock_client}
use duckdb_google_calendar.Util.Query.Parse.{parse_query, Lacks}
use duckdb_google_calendar.Auth.ServiceAccount.{
  Openssl, ServiceAccount, create_jwt, get_authorization_header,
}
use duckdb_google_calendar.Auth.ServiceAccount.Jwt.{Assertion, SignsBytes, create_jwt-Assertion}
use duckdb_google_calendar.Auth.ServiceAccount.Tokens.{Shows, get_authorization_header-Shows}
use duckdb_google_calendar.Auth.Secret.{
  new_account, service_account_auth, bearer_token_auth, Options, create_secret_from_access_token,
  create_secret_from_oauth, create_secret_from_key_file, key_of_options, build_provider,
}
use duckdb_google_calendar.Auth.Secret.Laws.{IsRedacted, Made, created-IsRedacted, build-create}
use duckdb_google_calendar.Auth.Oauth.{
  Desktop, Redirect, no_keychain_get, no_keychain_set, auth_request_url, browser_command,
}
use duckdb_google_calendar.Auth.Oauth.Flow.{interactive}
use duckdb_google_calendar.Auth.Oauth.Port.{
  desired_loopback_port, desired_loopback_port-to_string, leading_digits,
}
use duckdb_google_calendar.Auth.Oauth.Url.{
  auth_params, auth_request_url-parse, read_quoted, browser_command_safe,
}
use duckdb_google_calendar.Auth.Oauth.Interactive.{Whole, interactive_safe}
use duckdb_google_calendar.Extension.{load_internal}
use duckdb_google_calendar.Extension.Options.{fresh_loader, made_by, named, load_internal-named}

-- A server that gives one token, and a clock that stands still.
abbrev answer : HttpResponse
answer = record { status_code = 200; headers = []; body = codes "{}" }

abbrev server : MockHttpClient
server = record { response_index = 0; responses = answer ∷ [] }

abbrev token_json : JsonLib
token_json = record assoc_json {
  parse = λ s. some (obj (field "access_token" (str (codes "t")) end));
}

abbrev clock : MockHttpClient → ℤ × MockHttpClient
clock w = (pos 100, w)

abbrev ssl : Openssl MockHttpClient
ssl = record {
  Bio = Unit {0};
  Key = Unit {0};
  Context = Unit {0};
  new_mem_buf = λ pem w. (some tt, w);
  read_private_key = λ bio w. (some tt, w);
  new_context = λ w. (some tt, w);
  digest_sign_init = λ c k w. (some tt, w);
  digest_sign_update = λ c s w. (some tt, w);
  digest_sign_length = λ c w. (some 3, w);
  digest_sign_final = λ c n w. (some (1 ∷ 2 ∷ 3 ∷ []), w);
}

abbrev robot : ServiceAccount
robot = new_account (codes "robot@example.com") (codes "key")

objects-IsBytes : (j : Doc) → assoc_json.is_object j ≡ true → IsBytes (assoc_json.dump j)
objects-IsBytes (obj fs) h = all_bytes-IsBytes (codes "{}") refl
objects-IsBytes (str s) h = ground arith
objects-IsBytes nul h = ground arith
objects-IsBytes (bool b) h = ground arith
objects-IsBytes (int n) h = ground arith
objects-IsBytes (arr vs) h = ground arith

three-IsBytes : SignsBytes assoc_json assoc_json-IsLawful ssl clock
three-IsBytes c n w s h =
    subst IsBytes (some-injective _ _ h) (all_bytes-IsBytes (1 ∷ 2 ∷ 3 ∷ []) refl)

jwt_example :
    Ensures (Assertion assoc_json ssl robot) (create_jwt assoc_json ssl clock robot server)
jwt_example =
    create_jwt-Assertion assoc_json assoc_json-IsLawful ssl clock robot server objects-IsBytes
      three-IsBytes

header_example :
    Gives {W = ServiceAccount × MockHttpClient}
      (Shows token_json clock ssl mock_client robot server)
      (get_authorization_header token_json ssl clock mock_client (robot, server))
header_example = get_authorization_header-Shows token_json clock ssl mock_client robot server

-- The options of a secret by e-mail address and key.
abbrev by_hand : Options simple_sql
by_hand name =
    if name == "email"
    then some (text (codes "robot@example.com"))
    else if name == "secret"
    then some (text (codes "key"))
    else none

abbrev as_it_is : Cell → Option Cell
as_it_is c = some c

abbrev nowhere : Bytes → Option Bytes
nowhere name = none

abbrev no_text : Bytes → Bytes
no_text s = []

abbrev one_token : Exec ℕ Bytes
one_token = pure (codes "t")

secrets_example :
    IsRedacted simple_sql (create_secret_from_access_token simple_sql by_hand)
    × Ensures (IsRedacted simple_sql) (create_secret_from_oauth simple_sql one_token 0)
    × Made simple_sql
        (create_secret_from_key_file simple_sql as_it_is assoc_json nowhere nowhere no_text by_hand)
secrets_example =
    created-IsRedacted simple_sql as_it_is assoc_json nowhere nowhere no_text one_token 0 by_hand

named_example :
    All
      (λ function.
        made_by simple_sql one_token as_it_is assoc_json nowhere nowhere no_text function.function
          (named simple_sql one_token as_it_is assoc_json nowhere nowhere no_text function by_hand)
        ≡ made_by simple_sql one_token as_it_is assoc_json nowhere nowhere no_text function.function
            by_hand)
      (load_internal fresh_loader).functions
named_example =
    load_internal-named simple_sql one_token as_it_is assoc_json nowhere nowhere no_text by_hand

provider_example :
    (bind
        (create_secret_from_key_file simple_sql as_it_is assoc_json nowhere nowhere no_text by_hand)
        (build_provider simple_sql)
      ≡ bind
          (key_of_options simple_sql as_it_is assoc_json nowhere nowhere no_text by_hand)
          (λ (email, key). ok (service_account_auth (new_account email key))))
    × ((create_secret_from_oauth simple_sql one_token
            >>= (λ secret. lift (build_provider simple_sql secret)))
          0
        ≡ (one_token >>= (λ token. pure (bearer_token_auth token))) 0)
provider_example =
    build-create simple_sql as_it_is assoc_json nowhere nowhere no_text simple_sql-IsLawful
      one_token 0 by_hand

port_example :
    desired_loopback_port (
      some (codes "http" ++ (codes "://" ++ (codes "h" ++ (b':' ∷ (to_string 8085 ++ codes "/"))))))
    ≡ 8085
port_example =
    desired_loopback_port-to_string (codes "http") (codes "h") (codes "/") 8085 scheme_lacks
      host_lacks (unfold leading_digits in refl) (omega arith)
  where
    scheme_lacks : Lacks b':' (codes "http")
    scheme_lacks = (
      λ e. absurd (ground arith),
      (λ e. absurd (ground arith), (λ e. absurd (ground arith), (λ e. absurd (ground arith), tt))),
    )

    host_lacks : Lacks b':' (codes "h")
    host_lacks = (λ e. absurd (ground arith), tt)

abbrev here : Bytes
here = codes "http://127.0.0.1:8085"

abbrev odd_id : Bytes
odd_id = codes "a\"$(b)"

url_example :
    (query : Bytes) × (auth_request_url odd_id here (codes "s") (codes "c")
      ≡ codes "https://accounts.google.com/o/oauth2/v2/auth" ++ query)
    × (parse_query query ≡ some (auth_params odd_id here (codes "s") (codes "c")))
url_example =
    auth_request_url-parse odd_id here (codes "s") (codes "c") (all_bytes-IsBytes odd_id refl)
      (all_bytes-IsBytes here refl) (all_bytes-IsBytes (codes "s") refl)
      (all_bytes-IsBytes (codes "c") refl)

command_example :
    (quoted : Bytes) × (browser_command (auth_request_url odd_id here (codes "s") (codes "c"))
      ≡ codes "xdg-open \"" ++ quoted)
    × (read_quoted quoted ≡ some (auth_request_url odd_id here (codes "s") (codes "c"), []))
command_example =
    browser_command_safe odd_id here (codes "s") (codes "c") (all_bytes-IsBytes odd_id refl)
      (all_bytes-IsBytes here refl) (all_bytes-IsBytes (codes "s") refl)
      (all_bytes-IsBytes (codes "c") refl)

-- A browser that comes back once, with the state that was sent, and a token endpoint that is down.
abbrev back : Redirect
back key =
    if key == "code"
    then some (codes "c")
    else if key == "state"
    then some (codes "AAAAAAAAAAAAAAAAAAAAAAAAAAAAAAAA")
    else none

abbrev desk : Desktop ℕ
desk = record {
  getenv = λ name. none;
  rand_bytes = λ n w. (some (1 ∷ 2 ∷ 3 ∷ []), w);
  sha256 = λ s. s;
  draw = λ w. (0, w);
  keychain_get = no_keychain_get;
  keychain_set = no_keychain_set;
  bind_to_port = λ p w. (true, w);
  bind_to_any_port = λ w. (pos 8085, w);
  listen = λ w. w;
  stop = λ w. w;
  print = λ s w. w;
  warn = λ e w. w;
  system = λ s w. w;
  wait_for = λ w. ((back ∷ [], []), w);
  post_form = λ path params w. (inr (codes "down"), suc w);
}

flow_example :
    Whole assoc_json no_text desk
      (codes "id")
      []
      0
      (interactive assoc_json no_text desk (codes "id") [] 0)
flow_example = interactive_safe assoc_json no_text desk (codes "id") [] 0
