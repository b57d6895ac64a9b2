-- ===== src/Tests/Statements.antt =====
-- Runs of the theorems about the statements: INSERT, UPDATE and DELETE over a queue of responses.
use duckdb_google_calendar.Common.{
  ℕ, List, [], ◌∷◌, true, false, Bytes, codes, ◌≡◌, refl, inr, bytes_beq, string_eq, arith,
}
use duckdb_google_calendar.Common.Except.{ok, throw, Exception}
use duckdb_google_calendar.Transport.HttpType.{HttpResponse}
use duckdb_google_calendar.Transport.Mock.{MockHttpClient, mock_client}
use duckdb_google_calendar.Transport.Mock as Mock
use duckdb_google_calendar.Json.Assoc.{Doc, str, obj, end, field, assoc_json, assoc_json-IsLawful}
use duckdb_google_calendar.Sql.Simple.{Cell, simple_sql}
use duckdb_google_calendar.Mapping.Columns.{find_key}
use duckdb_google_calendar.Mapping.Write.{row_to_event, apply_row, row_all_day, apply_column}
use duckdb_google_calendar.Mapping.Read.{event_to_row}
use duckdb_google_calendar.Resources.Base.{Client, do_get, do_post, do_put, parse_response}
use duckdb_google_calendar.Resources.Events.{get_event}
use duckdb_google_calendar.Dml.Sink.{SinkState, push_row}
use duckdb_google_calendar.Dml.Insert as Insert
use duckdb_google_calendar.Dml.Insert.Upsert.{failure, sink_row_conflict, sink_row_failed}
use duckdb_google_calendar.Dml.Update as Update
use duckdb_google_calendar.Dml.Update.{apply_sets}
use duckdb_google_calendar.Dml.Update.Laws.{Applies, read_only_error, apply_sets_lem}
use duckdb_google_calendar.Dml.Update.Rows.{sink_row_read_only}
use duckdb_google_calendar.Dml.Delete as Delete
use duckdb_google_calendar.Dml.Source.{
  insert_get_data, insert_source_state, update_get_data, update_source_state, delete_get_data,
  delete_source_state,
}
use duckdb_google_calendar.Dml.Statement.{execute_statement}
use duckdb_google_calendar.Dml.Statement.Outcome.{
  InsertOutcome, UpdateOutcome, DeleteOutcome, statements-Outcome,
}

abbrev calendar : Client MockHttpClient
calendar = record { http = mock_client; headers = []; base_url = [] }

abbrev answer : ℕ → Bytes → HttpResponse
answer n body = record { status_code = n; headers = []; body = body }

abbrev answers : List HttpResponse → MockHttpClient
answers rs = record { response_index = 0; responses = rs }

abbrev after : ℕ → List HttpResponse → MockHttpClient
after n rs = record { response_index = n; responses = rs }

abbrev nothing_yet : SinkState Cell
nothing_yet = record { count = 0; returned = [] }

abbrev what : Exception → Bytes
what e = codes "error"

-- A row with its id, which is also its row id.
abbrev id_row : ℕ → Cell
id_row c = Cell.text (codes "e1")

abbrev with_id : Doc
with_id = obj (field "id" (str (codes "e1")) end)

abbrev conflict_then_stored : List HttpResponse
conflict_then_stored = answer 409 [] ∷ answer 200 (codes "{}") ∷ []

id_row_mapped : row_to_event assoc_json simple_sql id_row ("event_id" ∷ []) ≡ ok with_id
unfolding row_to_event apply_row row_all_day apply_column
id_row_mapped = refl

conflict_example :
    Insert.sink_row assoc_json simple_sql what calendar
      (codes "c")
      true
      ("event_id" ∷ [])
      id_row
      nothing_yet
      (answers conflict_then_stored)
    ≡ (
      ok (
          push_row simple_sql true
            (event_to_row assoc_json simple_sql (obj end) ("event_id" ∷ []) (codes "c"))
            nothing_yet),
      after 2 conflict_then_stored,
    )
unfolding do_post do_put mock_client Mock.execute bytes_beq
conflict_example =
    sink_row_conflict assoc_json assoc_json-IsLawful simple_sql what calendar (codes "c") true
      ("event_id" ∷ []) id_row with_id id_row_mapped (codes "e1") nothing_yet
      (answers conflict_then_stored) (after 1 conflict_then_stored) (after 2 conflict_then_stored)
      (answer 409 []) (answer 200 (codes "{}")) (obj end) refl refl refl refl refl refl

failed_example :
    Insert.sink_row assoc_json simple_sql what calendar
      (codes "c")
      true
      ("event_id" ∷ [])
      id_row
      nothing_yet
      (answers (answer 400 [] ∷ []))
    ≡ (
      throw (
          failure assoc_json assoc_json-IsLawful simple_sql what calendar
            (codes "c")
            true
            ("event_id" ∷ [])
            id_row
            with_id
            id_row_mapped
            (codes "e1")
            (answer 400 [])),
      after 1 (answer 400 [] ∷ []),
    )
unfolding do_post mock_client Mock.execute
failed_example =
    sink_row_failed assoc_json assoc_json-IsLawful simple_sql what calendar (codes "c") true
      ("event_id" ∷ []) id_row with_id id_row_mapped nothing_yet (answers (answer 400 [] ∷ []))
      (after 1 (answer 400 [] ∷ [])) (answer 400 []) (codes "e1") refl refl (inr (refl, refl))

sets_example :
    Applies assoc_json assoc_json-IsLawful simple_sql false id_row
      (("summary", 0) ∷ ("all_day", 1) ∷ [])
      true
      with_id
      (apply_sets assoc_json simple_sql false id_row
        (("summary", 0) ∷ ("all_day", 1) ∷ [])
        true
        with_id)
unfolding find_key
sets_example =
    apply_sets_lem assoc_json assoc_json-IsLawful simple_sql false id_row
      (("summary", 0) ∷ ("all_day", 1) ∷ []) true with_id refl (inr (refl, (refl, tt)))

read_only_example :
    Update.sink_row assoc_json simple_sql false calendar
      (codes "c")
      ("summary" ∷ [])
      0
      (("etag", 1) ∷ [])
      id_row
      nothing_yet
      (answers (answer 200 (codes "{}") ∷ []))
    ≡ (throw (read_only_error "etag"), after 1 (answer 200 (codes "{}") ∷ []))
unfolding get_event do_get parse_response mock_client Mock.execute find_key bytes_beq
read_only_example =
    sink_row_read_only assoc_json simple_sql calendar (codes "c") ("summary" ∷ []) 0
      (("etag", 1) ∷ []) assoc_json-IsLawful id_row nothing_yet "etag" (obj end)
      (answers (answer 200 (codes "{}") ∷ [])) (after 1 (answer 200 (codes "{}") ∷ [])) refl refl
      refl refl

abbrev stored_then_refused : MockHttpClient
stored_then_refused = answers (answer 200 (codes "{}") ∷ answer 400 [] ∷ [])

statements_example :
    InsertOutcome assoc_json simple_sql what calendar
      (codes "c")
      true
      ("event_id" ∷ [])
      0
      (("summary", 1) ∷ [])
      (id_row ∷ id_row ∷ [])
      stored_then_refused
      (execute_statement simple_sql
        (Insert.sink assoc_json simple_sql what calendar (codes "c") true ("event_id" ∷ []))
        (insert_get_data simple_sql true)
        insert_source_state
        1
        ((id_row ∷ []) ∷ (id_row ∷ []) ∷ [])
        stored_then_refused)
    × UpdateOutcome assoc_json simple_sql what calendar
        (codes "c")
        true
        ("event_id" ∷ [])
        0
        (("summary", 1) ∷ [])
        (id_row ∷ id_row ∷ [])
        stored_then_refused
        (execute_statement simple_sql
          (Update.sink assoc_json simple_sql true calendar
            (codes "c")
            ("event_id" ∷ [])
            0
            (("summary", 1) ∷ []))
          (update_get_data simple_sql true)
          update_source_state
          1
          ((id_row ∷ []) ∷ (id_row ∷ []) ∷ [])
          stored_then_refused)
    × DeleteOutcome assoc_json simple_sql what calendar
        (codes "c")
        true
        ("event_id" ∷ [])
        0
        (("summary", 1) ∷ [])
        (id_row ∷ id_row ∷ [])
        stored_then_refused
        (execute_statement simple_sql
          (Delete.sink assoc_json simple_sql calendar (codes "c") true ("event_id" ∷ []) 0)
          (delete_get_data simple_sql true)
          delete_source_state
          1
          ((id_row ∷ []) ∷ (id_row ∷ []) ∷ [])
          stored_then_refused)
statements_example =
    statements-Outcome assoc_json simple_sql what calendar (codes "c") true ("event_id" ∷ []) 0
      (("summary", 1) ∷ []) 1 ((id_row ∷ []) ∷ (id_row ∷ []) ∷ []) stored_then_refused (omega arith)
