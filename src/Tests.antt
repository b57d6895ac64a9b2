-- ===== src/Tests.antt =====
-- Runs of the theorems at concrete inputs, over the implementations of the JSON interface and of
-- DuckDB's values that stand beside the interfaces.
mod Statements
mod Scans
mod Sessions
mod Auth
mod Catalogs
mod Server
mod Factory
mod Attach
use duckdb_google_calendar.Common.{
  ℕ, zero, suc, ◌+◌, ◌-◌, ◌%◌, ◌<◌, ◌≤◌, List, [], ◌∷◌, ◌++◌, Option, none, some, Bool, true, false,
  String, Bytes, IsBytes, codes, ◌≡◌, refl, ◌⊎◌, inl, inr, All, length, take, drop, arith, ◌==◌,
  string_eq, if◌then◌else◌, find?,
}
use duckdb_google_calendar.Common.Int.{ℤ, pos, negsuc, ◌≤ℤ◌}
use duckdb_google_calendar.Common.Except.{Result, ok, Exec}
use duckdb_google_calendar.Util.Encoding.{base64url_encode}
use duckdb_google_calendar.Util.Encoding.RoundTrip.{base64url_decode, decode-encode}
use duckdb_google_calendar.Util.Encoding.Pem.{
  backslash_n, normalize_pem_key, unescape_newlines, normalize_pem_key-unescape,
  normalize_pem_key_complete,
}
use duckdb_google_calendar.Util.Query.{url_encode, build}
use duckdb_google_calendar.Util.Query.Percent.{
  url_decode, IsUrlSafe, url_decode-url_encode, url_encode-IsUrlSafe,
}
use duckdb_google_calendar.Util.Query.Parse.{parse_query, parse_query-build}
use duckdb_google_calendar.Transport.HttpType.{HttpClient, HttpRequest, HttpResponse, HttpMethod}
use duckdb_google_calendar.Transport.Retry.{RetryConfig, default_config, is_retryable, execute}
use duckdb_google_calendar.Transport.Retry.Laws.{counted, on_world, Bounded, execute_bounds}
use duckdb_google_calendar.Transport.Retry.Replay.{moved, execute_replay}
use duckdb_google_calendar.Transport.Mock.{MockHttpClient, mock_client}
use duckdb_google_calendar.Json.{JsonLib}
use duckdb_google_calendar.Json.Assoc.{
  Doc, nul, str, bool, obj, end, field, assoc_json, assoc_json-IsLawful,
}
use duckdb_google_calendar.Json.Laws.{IsBody}
use duckdb_google_calendar.Sql.{SqlLib, LogicalType}
use duckdb_google_calendar.Sql.Simple.{Cell, simple_sql, simple_sql-IsLawful}
use duckdb_google_calendar.Mapping.Columns.{find_key, writable_string_keys, writable_bool_keys}
use mathlib.Core.Option
use duckdb_google_calendar.Mapping.Times.{existing_all_day, reencode_time_node, raw_time}
use duckdb_google_calendar.Mapping.Times.Laws.{existing_all_day-reencode}
use duckdb_google_calendar.Mapping.Write.{apply_column, row_to_event}
use duckdb_google_calendar.Mapping.Write.Table.{touches}
use duckdb_google_calendar.Mapping.Write.Laws.{Writes, apply_column_lem}
use duckdb_google_calendar.Mapping.Read.{extract_field}
use duckdb_google_calendar.Mapping.RoundTrip.{
  extract-apply_text, extract-apply_flag, extract-apply_start,
}
use duckdb_google_calendar.Mapping.Rows.{row_to_event_lem}
use duckdb_google_calendar.Mapping.Emit.{drain, drain-returned}
use duckdb_google_calendar.Resources.Events.{event_path}
use duckdb_google_calendar.Resources.Paths.{event_path-injective}
use duckdb_google_calendar.Scan.Filter.{
  Expression, column_ref, other, nil, cons, LogicalGet, compare_lessthanorequalto,
}

man-decode-encode : base64url_decode (base64url_encode (codes "Ma")) ≡ some (codes "Ma")
man-decode-encode = decode-encode (codes "Ma") (omega arith, (omega arith, tt))

key-unescape : normalize_pem_key (codes "a\\nb") ≡ unescape_newlines (codes "a\\nb")
key-unescape = normalize_pem_key-unescape (codes "a\\nb")

q_params : parse_query (build ((codes "q", codes "a") ∷ [])) ≡ some ((codes "q", codes "a") ∷ [])
q_params =
    parse_query-build ((codes "q", codes "a") ∷ []) (((omega arith, tt), (omega arith, tt)), tt)

-- The transport.
abbrev list_request : HttpRequest
list_request = record { method = HttpMethod.get; url = codes "u"; headers = []; body = [] }

abbrev status : ℕ → HttpResponse
status n = record { status_code = n; headers = []; body = [] }

abbrev fast : RetryConfig
fast = record default_config { zero_sleep = true }

abbrev queue : MockHttpClient
queue = record { response_index = 0; responses = status 503 ∷ status 200 ∷ [] }

bounds_example :
    Bounded 5 7
      (execute (counted mock_client) (on_world (λ d m. m)) default_config list_request (queue, 7))
bounds_example =
    execute_bounds mock_client (λ d m. m) default_config list_request queue 7 (omega arith)

-- The mapping, over the association lists.
abbrev lunch : Doc
lunch = obj (field "summary" (str (codes "Lunch")) (field "location" (str (codes "Rome")) end))

lunch-IsBody : IsBody assoc_json lunch
lunch-IsBody = inl refl

erase_example : Writes assoc_json lunch "summary" true (
    apply_column assoc_json simple_sql lunch "summary"
      (Cell.null_cell LogicalType.varchar)
      false
      true)
erase_example =
    apply_column_lem assoc_json assoc_json-IsLawful simple_sql lunch "summary"
      (Cell.null_cell LogicalType.varchar) false true lunch-IsBody (λ _. refl)

text_example :
    (event' : Doc) × (apply_column assoc_json simple_sql lunch "summary"
        (Cell.text (codes "Tea"))
        false
        true
      ≡ ok (event', true))
    × (extract_field assoc_json simple_sql event' "summary" ≡ Cell.text (codes "Tea"))
unfolding find_key
text_example =
    extract-apply_text assoc_json simple_sql assoc_json-IsLawful simple_sql-IsLawful lunch "summary"
      "summary" (codes "Tea") false true lunch-IsBody refl

start_example :
    (event' : Doc) × (apply_column assoc_json simple_sql lunch "start" (Cell.time (pos 0)) true true
      ≡ ok (event', true))
    × (extract_field assoc_json simple_sql event' "start" ≡ Cell.time (pos 0))
    × (extract_field assoc_json simple_sql event' "all_day" ≡ Cell.bool true)
start_example =
    extract-apply_start assoc_json simple_sql assoc_json-IsLawful simple_sql-IsLawful lunch (pos 0)
      true true lunch-IsBody refl

abbrev new_row : ℕ → Cell
new_row zero = Cell.text (codes "Tea")
new_row (suc _) = Cell.time (pos 0)

row_example :
    (event : Doc) × (row_to_event assoc_json simple_sql new_row ("summary" ∷ "start" ∷ "etag" ∷ [])
      ≡ ok event)
    × IsBody assoc_json event
    × ((k : String)
        → All (λ name. touches name k ≡ false) ("summary" ∷ "start" ∷ "etag" ∷ [])
        → assoc_json.member event k ≡ none)
row_example =
    row_to_event_lem assoc_json assoc_json-IsLawful simple_sql new_row
      ("summary" ∷ "start" ∷ "etag" ∷ [])

drain_example : drain {Row = ℕ} 1 (7 ∷ 8 ∷ []) 0 ≡ some (7 ∷ 8 ∷ [])
drain_example = drain-returned {Row = ℕ} 1 (7 ∷ 8 ∷ []) (omega arith)

slash-IsBytes : IsBytes (codes "a/b")
slash-IsBytes = (omega arith, (omega arith, (omega arith, tt)))

word-IsBytes : IsBytes (codes "c")
word-IsBytes = (omega arith, tt)

path_example : (codes "a/b" ≡ codes "a/b") × (codes "c" ≡ codes "c")
path_example =
    event_path-injective (codes "a/b") (codes "c") (codes "a/b") (codes "c") slash-IsBytes
      word-IsBytes slash-IsBytes word-IsBytes refl

-- The scan: `start > 5 AND 20 >= start` on a row that starts at 10. A number stands for a constant.
abbrev one_column : LogicalGet
one_column = record { column_ids = 0 ∷ []; names = "start" ∷ [] }

abbrev constants : Expression → Option Cell
constants (other n) = some (Cell.time (pos (n % 1000)))
constants _ = none

abbrev row_value : Expression → Option ℤ
row_value (other n) = some (pos (n % 1000))
row_value (column_ref zero) = some (pos 10)
row_value _ = none

-- An event that starts at a time, and becomes one that lasts the day.
abbrev at_noon : Doc
at_noon = obj (field "start" (obj (field "dateTime" (str (codes "1970-01-01T12:00:00Z")) end)) end)

flip_example :
    (event' : Doc) × (reencode_time_node assoc_json at_noon "start" true ≡ ok event')
    × (existing_all_day assoc_json event' ≡ true)
    × ((node' : Doc) × (assoc_json.member event' "start" ≡ some node')
        × (raw_time assoc_json node' ≡ some (codes "1970-01-01")))
unfolding raw_time Option.bind
flip_example =
    existing_all_day-reencode assoc_json assoc_json-IsLawful at_noon
      (obj (field "dateTime" (str (codes "1970-01-01T12:00:00Z")) end))
      (codes "1970-01-01T12:00:00Z") true (inl refl) refl refl refl

-- A proxy with a port.
abbrev two_parts : Bytes → List Bytes
two_parts s = codes "proxy" ∷ codes "8080" ∷ []
