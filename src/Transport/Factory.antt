-- ===== src/Transport/Factory.antt =====
-- src/calendar/transport/client_factory.cpp: the client that the extension calls the API with. With
-- a fixture it has canned responses, else it is the one over the HTTP library.
pub mod Answers
use duckdb_google_calendar.Common.{
  ℕ, zero, suc, ◌-◌, ◌^◌, ◌%◌, List, [], ◌∷◌, ◌++◌, length, get_elem?, Option, none, some, String,
  Bytes, codes, is_empty, if◌then◌else◌, true,
}
use duckdb_google_calendar.Common.Int.{ℤ, pos, negsuc}
use duckdb_google_calendar.Common.Except.{
  Exec, Result, ok, throw, bind, io, runtime, lift, pure, ◌>>=◌, json_call,
}
use duckdb_google_calendar.Json.{JsonLib}
use duckdb_google_calendar.Transport.HttpType.{
  HttpClient, HttpHeaders, set_header, HttpRequest, HttpResponse, HttpProxyConfig,
}
use duckdb_google_calendar.Transport.Mock.{MockHttpClient, add_response}
use duckdb_google_calendar.Transport.Mock as Mock
use duckdb_google_calendar.Transport.Retry.{RetryConfig, default_config, retrying_client}
use duckdb_google_calendar.Transport.HttpLib.{HttpLib, http_lib_client}

-- A status code is an `int`; a negative one, which only a fixture can have, stands as its bits.
unfoldable pub to_status : ℤ → ℕ
to_status (pos n) = n % 2 ^ 32
to_status (negsuc n) = 2 ^ 32 - suc (n % 2 ^ 32)

module _ (J : JsonLib) where
  -- `entry.value(key, fallback)`
  abbrev pub value : {A : Type 0} → J.Json → String → (J.Json → Option A) → A → Result A
  value entry key get fallback =
      if J.is_object entry
      then elim (J.member entry key) [ none ↦ ok fallback | some v ↦ json_call (get v) ]
      else json_call none

  -- The loop over `entry["headers"]`.
  unfoldable pub load_headers : List (String × J.Json) → HttpHeaders → Result HttpHeaders
  load_headers [] headers = ok headers
  load_headers ((key, v) ∷ items) headers =
      bind (json_call (J.as_string v)) (λ text. load_headers items (set_header key text headers))

  unfoldable pub entry_headers : J.Json → Result HttpHeaders
  unfolding load_headers
  entry_headers entry = elim (J.member entry "headers") [
    | none ↦ ok []
    | some v ↦ bind (json_call (J.items v)) (λ items. load_headers items [])
  ]

  unfoldable pub load_response : J.Json → Result HttpResponse
  unfolding entry_headers to_status
  load_response entry = bind (value entry "status" J.get_int (pos 200)) (λ status.
      bind (value entry "body" J.as_string []) (λ body. bind (entry_headers entry) (λ headers.
        ok (record { status_code = to_status status; headers = headers; body = body }))))

  -- The loop over the responses.
  unfoldable pub load_responses : List J.Json → MockHttpClient → Result MockHttpClient
  unfolding load_response
  load_responses [] mock = ok mock
  load_responses (entry ∷ entries) mock =
      bind (load_response entry) (λ response. load_responses entries (add_response response mock))

  -- `read_file` is the text of a file, if it can be opened.
  unfoldable pub load_mock_from_fixture : (Bytes → Option Bytes) → Bytes → Result MockHttpClient
  unfolding load_responses
  load_mock_from_fixture read_file path = elim (read_file path) [
    | none ↦ throw (io "Could not open GOOGLE_CALENDAR_TEST_FIXTURE at: " (path ∷ []))
    | some text ↦ bind (json_call (J.parse text)) (λ fixture.
        bind (json_call (J.member fixture "responses")) (λ responses.
          load_responses (J.values responses) (record { response_index = 0; responses = [] })))
  ]

-- The mock clients that were made, each with its queue, beside all that is outside.
pub record Clients (W : Type 0) : Type 0 where
  pub mocks : List MockHttpClient
  pub outside : W

unfoldable pub set_mock : List MockHttpClient → ℕ → MockHttpClient → List MockHttpClient
set_mock [] i m = []
set_mock (m' ∷ ms) zero m = m ∷ ms
set_mock (m' ∷ ms) (suc i) m = m' ∷ set_mock ms i m

abbrev pub fixture_config : RetryConfig
fixture_config = record default_config { zero_sleep = true }

module _ {W : Type 0} where
  -- The client with the index `i`.
  unfoldable pub mock_at : ℕ → HttpClient (Clients W)
  unfolding set_mock
  mock_at i = record {
    execute = λ request clients. elim (get_elem? clients.mocks i) [
      | none ↦ (throw (runtime "no such client"), clients)
      | some m ↦ (
        (Mock.execute request m).0,
        record clients { mocks = set_mock clients.mocks i (Mock.execute request m).1 },
      )
    ];
  }

  -- A client of the world outside.
  unfoldable pub outside_client : HttpClient W → HttpClient (Clients W)
  outside_client client = record {
    execute = λ request clients.
        let p = client.execute request clients.outside in (p.0, record clients { outside = p.1 });
  }

  unfoldable pub add_mock : MockHttpClient → Exec (Clients W) ℕ
  add_mock m clients =
      (ok (length clients.mocks), record clients { mocks = clients.mocks ++ (m ∷ []) })

  abbrev pub sleep_outside : (ℕ → W → W) → ℕ → Clients W → Clients W
  sleep_outside sleep_up_to delay clients = record clients {
    outside = sleep_up_to delay clients.outside;
  }

  -- `proxy` is what `GetHttpProxyConfig` gives.
  module _ (J : JsonLib) (getenv read_file : Bytes → Option Bytes) (proxy : Result HttpProxyConfig)
      (lib : HttpLib W) (sleep_up_to : ℕ → W → W) where
    unfoldable pub fixture_client : Bytes → Exec (Clients W) (HttpClient (Clients W))
    unfolding add_mock
    fixture_client path = do
      mock ← lift (load_mock_from_fixture J read_file path)
      i ← add_mock mock
      pure (retrying_client (mock_at i) (sleep_outside sleep_up_to) fixture_config)

    unfoldable pub real_client : Exec (Clients W) (HttpClient (Clients W))
    real_client = do
      config ← lift proxy
      pure (
          retrying_client (outside_client (http_lib_client lib config)) (sleep_outside sleep_up_to)
            default_config)

    unfoldable pub create_http_client : Exec (Clients W) (HttpClient (Clients W))
    unfolding fixture_client real_client
    create_http_client = elim (getenv (codes "GOOGLE_CALENDAR_TEST_FIXTURE")) [
      | none ↦ real_client
      | some path ↦ if is_empty path then real_client else fixture_client path
    ]
