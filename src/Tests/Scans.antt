-- ===== src/Tests/Scans.antt =====
-- Runs of the theorems about the scan.
use mathlib.Core.Option
use duckdb_google_calendar.Common.{
  none, ℕ, ◌*◌, [], ◌∷◌, Option, some, true, false, String, Bytes, codes, ◌≡◌, refl, ◌⊎◌, inr, ◌==◌,
  bytes_eq, bytes_beq, if◌then◌else◌, arith, map, all_bytes-IsBytes,
}
use duckdb_google_calendar.Common.Int.{ℤ, pos, negsuc, ◌+ℤ◌, wrap, limit64}
use duckdb_google_calendar.Common.Except.{Result, ok}
use duckdb_google_calendar.Transport.HttpType.{HttpResponse}
use duckdb_google_calendar.Transport.Mock.{MockHttpClient, mock_client}
use duckdb_google_calendar.Transport.Mock as Mock
use duckdb_google_calendar.Json.{JsonLib}
use duckdb_google_calendar.Json.Assoc.{Doc, str, obj, arr, nil, cons, end, field, assoc_json}
use duckdb_google_calendar.Sql.Simple.{Cell, simple_sql}
use duckdb_google_calendar.Resources.Base.{Client, do_get, parse_response}
use duckdb_google_calendar.Resources.Events.{list_events}
use duckdb_google_calendar.Scan.Filter.{no_bounds}
use duckdb_google_calendar.Scan.Init.{Interval, DefaultWindow, effective_bounds}
use duckdb_google_calendar.Catalog.Attach.{attach_window, to_iv, dynamic_window}
use duckdb_google_calendar.Catalog.Attach.Window.{Windowed, effective_bounds-attach_window}
use duckdb_google_calendar.Scan.Init.Query.{Refused, TooLong, Bounded, base_query_lem}
use duckdb_google_calendar.Scan.Pages.{ScanState, row_id, page_token, page_items, drain_scan}
use duckdb_google_calendar.Scan.Pages.Laws.{row, drain_scan_lem}

abbrev week : DefaultWindow
week = record {
  has_default_window = true;
  default_is_dynamic = true;
  default_window_length = record { months = pos 0; days = pos 7; micros = pos 0 };
  default_window_start = pos 0;
  default_window_end = pos 0;
}

-- Of days only.
abbrev micros : Interval → Result ℤ
micros length = elim length.days [ pos n ↦ ok (pos (n * 86400000000)) | negsuc n ↦ ok (pos 0) ]

week_example :
    Refused simple_sql micros week (pos 0) no_bounds
    ⊎ TooLong simple_sql micros week (pos 0) no_bounds
    ⊎ Bounded simple_sql micros week (pos 0) no_bounds
week_example =
    base_query_lem simple_sql micros week (pos 0) no_bounds
      (λ t. all_bytes-IsBytes (codes "1970-01-01 00:00:00") refl) tt tt

-- Two pages of one event.
abbrev event : String → Doc
event s = obj (field "id" (str (codes s)) end)

abbrev page_doc : Bytes → Option Doc
page_doc body =
    if body == codes "1"
    then some (
        obj (
          field "nextPageToken" (str (codes "t")) (field "items" (arr (cons (event "a") nil)) end)))
    else some (obj (field "items" (arr (cons (event "b") nil)) end))

abbrev page_json : JsonLib
page_json = record assoc_json { parse = page_doc }

abbrev calendar : Client MockHttpClient
calendar = record { http = mock_client; headers = []; base_url = [] }

abbrev page : String → HttpResponse
page s = record { status_code = 200; headers = []; body = codes s }

abbrev server : ℕ → MockHttpClient
server n = record { response_index = n; responses = page "1" ∷ page "2" ∷ [] }

abbrev first_page : ScanState Doc
first_page = record {
  items = event "a" ∷ [];
  item_index = 0;
  next_page_token = codes "t";
  finished = false;
}

pages_example :
    (w' : MockHttpClient) × (drain_scan page_json calendar
        (codes "c")
        (codes "?q=x")
        simple_sql
        []
        (row_id ∷ [])
        3
        5
        first_page
        (server 1)
      ≡ (
        ok (
            some (
              map
                (row page_json calendar (codes "c") (codes "?q=x") simple_sql [] (row_id ∷ []))
                (event "a" ∷ event "b" ∷ []))),
        w',
      ))
unfolding list_events do_get parse_response mock_client Mock.execute page_token page_items bytes_beq
    Option.bind
pages_example =
    drain_scan_lem page_json calendar (codes "c") (codes "?q=x") simple_sql [] (row_id ∷ []) 3 5
      first_page (server 1) ((event "b" ∷ []) ∷ []) (event "a" ∷ event "b" ∷ [])
      (inr (
        refl,
        (
          refl,
          (
            obj (field "items" (arr (cons (event "b") nil)) end),
            [],
            server 2,
            refl,
            refl,
            refl,
            refl,
          ),
        ),
        refl,
      ))
      (omega arith) (omega arith)

-- The instant of `infinity` with a day added is before every other.
infinity_wraps :
    wrap limit64 (pos 9223372036854775807 +ℤ pos 86400000000) ≡ negsuc 9223371950454775808
unfolding wrap ◌+ℤ◌
infinity_wraps = refl

abbrev one_day : Interval
one_day = record { months = pos 0; days = pos 1; micros = pos 0 }

abbrev day : Cell → Option Interval
day v = some one_day

attach_example :
    Windowed simple_sql day
      (λ t w. ok t)
      micros
      none
      none
      (some (Cell.text (codes "1 day")))
      (pos 0)
      (effective_bounds simple_sql micros (dynamic_window one_day) (pos 0) no_bounds)
unfolding attach_window to_iv
attach_example =
    effective_bounds-attach_window simple_sql day (λ t w. ok t) micros none none
      (some (Cell.text (codes "1 day"))) (dynamic_window one_day) (pos 0) refl
