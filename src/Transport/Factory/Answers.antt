-- ===== src/Transport/Factory/Answers.antt =====
-- What a client with a fixture answers.
use duckdb_google_calendar.Common.{
  ℕ, zero, suc, ◌+◌, ◌<◌, List, [], ◌∷◌, ◌++◌, append-nil, append_assoc, ◌≡◌, refl, ◌∙◌, ◌⊎◌, true,
  false, length, get_elem?, Option, none, some, All, Bytes, codes, is_empty, drop,
  get_elem?_of_drop, drop_of_drop,
}
use duckdb_google_calendar.Common.Except.{Result, ok}
use duckdb_google_calendar.Json.{JsonLib}
use duckdb_google_calendar.Transport.HttpType.{
  HttpClient, HttpRequest, HttpResponse, HttpProxyConfig,
}
use duckdb_google_calendar.Transport.HttpLib.{HttpLib}
use duckdb_google_calendar.Transport.Mock.{MockHttpClient, add_response}
use duckdb_google_calendar.Transport.Mock as Mock
use duckdb_google_calendar.Transport.Retry.{is_retryable, no_response, retrying_client}
use duckdb_google_calendar.Transport.Retry.Serve.{Serves, loop_serves}
use duckdb_google_calendar.Transport.Factory.{
  Clients, mock_at, set_mock, add_mock, fixture_client, create_http_client, load_mock_from_fixture,
  load_responses, load_response, sleep_outside, fixture_config,
}

-- The responses that a mock client has left.
abbrev pub left_of : MockHttpClient → List HttpResponse
left_of m = drop m.response_index m.responses

mock_serves :
    (request : HttpRequest) (m : MockHttpClient) (r : HttpResponse) (more : List HttpResponse)
    → left_of m ≡ r ∷ more
    → Mock.execute request m ≡ (ok r, record m { response_index = m.response_index + 1 })
unfolding Mock.execute
mock_serves request m r more h =
    rw (get_elem?_of_drop m.responses m.response_index r more h, Mock.execute)

abbrev pub left_at : {W : Type 0} → ℕ → Clients W → List HttpResponse
left_at i clients = elim (get_elem? clients.mocks i) [ none ↦ [] | some m ↦ left_of m ]

get-set_mock :
    (ms : List MockHttpClient) (i : ℕ) (m m' : MockHttpClient)
    → get_elem? ms i ≡ some m
    → get_elem? (set_mock ms i m') i ≡ some m'
unfolding set_mock
get-set_mock [] i m m' h = cc
get-set_mock (x ∷ ms) zero m m' h = refl
get-set_mock (x ∷ ms) (suc i) m m' h = get-set_mock ms i m m' h

get_elem?-last :
    (ms : List MockHttpClient) (m : MockHttpClient)
    → get_elem? (ms ++ (m ∷ [])) (length ms) ≡ some m
get_elem?-last [] m = refl
get_elem?-last (x ∷ ms) m = get_elem?-last ms m

module _ {W : Type 0} where
  mock_at-Serves : (i : ℕ) → Serves (mock_at i) (left_at {W = W} i) (λ clients. clients.outside)
  unfolding mock_at
  mock_at-Serves i request clients r more h = go (get_elem? clients.mocks i) refl (h)
    where
      go :
          (found : Option MockHttpClient)
          → get_elem? clients.mocks i ≡ found
          → (elim found [ none ↦ [] | some m ↦ left_of m ]) ≡ r ∷ more
          → (clients' : Clients W) × ((mock_at i).execute request clients ≡ (ok r, clients'))
            × (left_at i clients' ≡ more)
            × (clients'.outside ≡ clients.outside)
      go none e q = cc
      go (some m) e q =
          let m' : MockHttpClient = record m { response_index = m.response_index + 1 } in
          (
            record clients { mocks = set_mock clients.mocks i m' },
            rw (e, mock_serves request m r more q, mock_at),
            rw (get-set_mock clients.mocks i m m' e, left_at)
                (drop_of_drop m.responses m.response_index r more q),
            refl,
          )

module _ (J : JsonLib) where
  -- The responses that the entries of a fixture are read as.
  abbrev pub Loads : List J.Json → List HttpResponse → Type 0
  Loads [] [] = Unit
  Loads [] (r ∷ rs) = ⊥
  Loads (entry ∷ entries) [] = ⊥
  Loads (entry ∷ entries) (r ∷ rs) = (load_response J entry ≡ ok r) × Loads entries rs

  load_responses_lem :
      (entries : List J.Json) (rs : List HttpResponse) (m : MockHttpClient)
      → Loads entries rs
      → load_responses J entries m ≡ ok (record m { responses = m.responses ++ rs })
  unfolding load_responses add_response
  load_responses_lem [] [] m h = rw append-nil
  load_responses_lem [] (r ∷ rs) m h = absurd h
  load_responses_lem (entry ∷ entries) [] m h = absurd h
  load_responses_lem (entry ∷ entries) (r ∷ rs) m (h, hs) =
      rw (h, add_response)
        (load_responses_lem entries rs (record m { responses = m.responses ++ (r ∷ []) }) hs
          ∙ rw append_assoc)

  fixture_mock :
      (read_file : Bytes → Option Bytes) (path text : Bytes) (fixture responses : J.Json)
      (rs : List HttpResponse)
      → read_file path ≡ some text
      → J.parse text ≡ some fixture
      → J.member fixture "responses" ≡ some responses
      → Loads (J.values responses) rs
      → load_mock_from_fixture J read_file path ≡ ok (record { response_index = 0; responses = rs })
  unfolding load_mock_from_fixture
  fixture_mock read_file path text fixture responses rs opened parsed listed loaded =
      rw (load_mock_from_fixture, opened, parsed, listed)
        (load_responses_lem (J.values responses) rs (record { response_index = 0; responses = [] })
          loaded)

  module _ {W : Type 0} (getenv read_file : Bytes → Option Bytes) (proxy : Result HttpProxyConfig)
      (lib : HttpLib W) (sleep_up_to : ℕ → W → W) where
    made_client :
        (path : Bytes) (mock : MockHttpClient) (clients : Clients W)
        → load_mock_from_fixture J read_file path ≡ ok mock
        → fixture_client J getenv read_file proxy lib sleep_up_to path clients ≡ (
          ok (
              retrying_client
                (mock_at (length clients.mocks))
                (sleep_outside sleep_up_to)
                fixture_config),
          record clients { mocks = clients.mocks ++ (mock ∷ []) },
        )
    unfolding fixture_client add_mock
    made_client path mock clients loaded = rw (fixture_client, loaded)

    -- If the environment names a fixture that can be read and parsed, and the entries of its
    -- `responses` are read as responses of which the first may be retried and are fewer than five,
    -- and the next one is final or the fifth: a client is made, its first request is answered with
    -- that one, whatever the request is, the responses behind it are left for later requests, and
    -- the world outside the clients stays as it is.
    pub create_http_client-Answers :
        (path text : Bytes) (fixture responses : J.Json) (failed : List HttpResponse)
        (r : HttpResponse) (more : List HttpResponse) (request : HttpRequest) (clients : Clients W)
        → getenv (codes "GOOGLE_CALENDAR_TEST_FIXTURE") ≡ some path
        → is_empty path ≡ false
        → read_file path ≡ some text
        → J.parse text ≡ some fixture
        → J.member fixture "responses" ≡ some responses
        → Loads (J.values responses) (failed ++ (r ∷ more))
        → All (λ f. is_retryable f ≡ true) failed
        → length failed < 5
        → (is_retryable r ≡ false) ⊎ (length failed + 1 ≡ 5)
        → (client : HttpClient (Clients W)) × (made : Clients W) × (done : Clients W)
          × (create_http_client J getenv read_file proxy lib sleep_up_to clients
              ≡ (ok client, made))
          × (client.execute request made ≡ (ok r, done))
          × (left_at (length clients.mocks) done ≡ more)
          × (done.outside ≡ clients.outside)
    unfolding create_http_client retrying_client
    create_http_client-Answers path text fixture responses failed r more request clients env full
          opened parsed listed loaded again few stop =
        let mock : MockHttpClient = record {
          response_index = 0;
          responses = failed ++ (r ∷ more);
        } in
        let i : ℕ = length clients.mocks in
        let made : Clients W = record clients { mocks = clients.mocks ++ (mock ∷ []) } in
        let (done, answered, rest, same) =
          loop_serves (mock_at i) (left_at i) (λ clients. clients.outside) (mock_at-Serves i)
            (sleep_outside sleep_up_to) fixture_config refl failed 5 0 request no_response r more
            made (rw (get_elem?-last clients.mocks mock, left_at)) refl again few stop in
        (
          retrying_client (mock_at i) (sleep_outside sleep_up_to) fixture_config,
          made,
          done,
          rw (create_http_client, env, full)
              (made_client path mock clients (
                fixture_mock read_file path text fixture responses (failed ++ (r ∷ more)) opened
                  parsed listed loaded)),
          answered,
          rest,
          same,
        )
