-- ===== src/Transport/Mock.antt =====
-- src/calendar/transport/mock_http_client.cpp: a queue of canned responses. A call holds the lock
-- from its first step to its last, so it is one step here.
use duckdb_google_calendar.Common.{ℕ, ◌+◌, List, [], ◌∷◌, ◌++◌, none, some, get_elem?}
use duckdb_google_calendar.Common.Except.{Exec, ok, throw, runtime}
use duckdb_google_calendar.Transport.HttpType.{HttpClient, HttpRequest, HttpResponse}

pub record MockHttpClient : Type 0 where
  pub response_index : ℕ
  pub responses : List HttpResponse

unfoldable pub add_response : HttpResponse → MockHttpClient → MockHttpClient
add_response response m = record m { responses = m.responses ++ (response ∷ []) }

unfoldable pub execute : HttpRequest → Exec MockHttpClient HttpResponse
execute request m = elim (get_elem? m.responses m.response_index) [
  | some response ↦ (ok response, record m { response_index = m.response_index + 1 })
  | none ↦ (throw (runtime "MockHttpClient: No more responses queued"), m)
]

unfoldable pub mock_client : HttpClient MockHttpClient
unfolding execute
mock_client = record { execute = execute }
