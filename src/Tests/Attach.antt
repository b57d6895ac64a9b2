-- ===== src/Tests/Attach.antt =====
-- ATTACH with a secret and an alias, over a queue of one response.
use duckdb_google_calendar.Common.{[], ◌∷◌, Option, none, some, Bytes, codes, ◌≡◌}
use duckdb_google_calendar.Common.Int.{ℤ}
use duckdb_google_calendar.Common.Except.{Result, Exec, Exception, ok, throw, Ensures}
use duckdb_google_calendar.Json.Assoc.{assoc_json}
use duckdb_google_calendar.Sql.Simple.{Cell, simple_sql}
use duckdb_google_calendar.Transport.Mock.{MockHttpClient, mock_client}
use duckdb_google_calendar.Resources.Base.{Client}
use duckdb_google_calendar.Scan.Init.{Interval}
use duckdb_google_calendar.Catalog.Mount.{AttachOptions, calendar_attach}
use duckdb_google_calendar.Catalog.Mount.Laws.{Refuses, IsMounted, calendar_attach-IsMounted}

abbrev no_fold : Bytes → Bytes
no_fold s = s

abbrev no_interval : Cell → Option Interval
no_interval v = none

abbrev same_instant : ℤ → Interval → Result ℤ
same_instant t w = ok t

abbrev make : Bytes → Exec MockHttpClient (Client MockHttpClient)
make secret_name w = (ok (record { http = mock_client; headers = []; base_url = [] }), w)

abbrev options : AttachOptions Cell
options = record {
  secret = some (codes "work");
  calendar_aliases = some (some ((codes "team", some (codes "a")) ∷ []));
  default_window_start = none;
  default_window_end = none;
  default_window_length = none;
}

abbrev server : MockHttpClient
server = record {
  response_index = 0;
  responses = (record { status_code = 200; headers = []; body = codes "{}" }) ∷ [];
}

mount_example :
    ((e : Exception)
      → Refuses no_fold simple_sql no_interval same_instant assoc_json make 2 (codes "") options e
      → calendar_attach no_fold simple_sql no_interval same_instant assoc_json make 2
          (codes "")
          options
          server
        ≡ (throw e, server))
    × Ensures
        (IsMounted no_fold simple_sql no_interval same_instant assoc_json make 2 (codes "") options)
        (calendar_attach no_fold simple_sql no_interval same_instant assoc_json make 2
          (codes "")
          options
          server)
mount_example =
    calendar_attach-IsMounted no_fold simple_sql no_interval same_instant assoc_json make 2
      (codes "") options server
