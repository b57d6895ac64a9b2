-- ===== src/Tests/Server/Statements.antt =====
-- INSERT, UPDATE and DELETE over the server of the tests.
use duckdb_google_calendar.Common.{
  ℕ, zero, suc, [], ◌∷◌, some, Bool, true, false, Bytes, codes, ◌≡◌, refl, inl, inr, bytes_beq,
  string_eq, arith,
}
use duckdb_google_calendar.Common.Except.{Result, ok, throw, Exception}
use duckdb_google_calendar.Json.Log.{log_json, put, log_json-IsLawful}
use duckdb_google_calendar.Sql.{LogicalType}
use duckdb_google_calendar.Sql.Simple.{Cell, simple_sql}
use duckdb_google_calendar.Mapping.Columns.{find_key}
use duckdb_google_calendar.Mapping.Write.{row_to_event, apply_row, row_all_day, apply_column}
use duckdb_google_calendar.Dml.Sink.{SinkState}
use duckdb_google_calendar.Dml.Statement.{new_sink, result}
use duckdb_google_calendar.Dml.Statement.Delete.{run_delete, run_delete_refines}
use duckdb_google_calendar.Dml.Statement.Update.{run_update, run_update_refines}
use duckdb_google_calendar.Dml.Statement.Insert.{run_insert, run_insert_refines}
use duckdb_google_calendar.Dml.Service.{erase_event}
use duckdb_google_calendar.Dml.Service.Delete.{counted}
use duckdb_google_calendar.Dml.Service.Update.{Updates}
use duckdb_google_calendar.Dml.Service.Insert.{Upserts}
use duckdb_google_calendar.Tests.Server.{Log, stored, calendar, store_service, service}

abbrev two_events : Log
two_events = (codes "a", some []) ∷ (codes "b", some []) ∷ []

abbrev what : Exception → Bytes
what e = codes "error"

abbrev row_a : ℕ → Cell
row_a zero = Cell.text (codes "a")
row_a (suc c) = Cell.text (codes "new")

abbrev row_null : ℕ → Cell
row_null c = simple_sql.null_of LogicalType.varchar

abbrev row_new : ℕ → Cell
row_new zero = simple_sql.null_of LogicalType.varchar
row_new (suc c) = Cell.text (codes "new")

delete_example :
    (w' : Log) × (run_delete log_json simple_sql
        (codes "c")
        true
        ("summary" ∷ [])
        0
        calendar
        store_service
        1
        ((row_a ∷ []) ∷ (row_null ∷ []) ∷ [])
        two_events
      ≡ (
        ok (
            some (
              result simple_sql true (
                counted log_json simple_sql
                  (codes "c")
                  true
                  ("summary" ∷ [])
                  0
                  (3 ∷ [])
                  new_sink))),
        w',
      ))
    × (stored w' ≡ erase_event log_json (codes "a") (stored two_events))
unfolding store_service bytes_beq
delete_example =
    run_delete_refines log_json simple_sql (codes "c") true ("summary" ∷ []) 0 calendar
      store_service 1 ((row_a ∷ []) ∷ (row_null ∷ []) ∷ [])
      (counted log_json simple_sql (codes "c") true ("summary" ∷ []) 0 (3 ∷ []) new_sink)
      (erase_event log_json (codes "a") (stored two_events)) two_events
      (omega arith, (omega arith, tt)) refl (omega arith)

update_example :
    (state' : SinkState Cell) × (w' : Log) × (run_update log_json simple_sql
        (codes "c")
        false
        ("summary" ∷ [])
        0
        (("summary", 1) ∷ [])
        calendar
        service
        1
        ((row_a ∷ []) ∷ (row_null ∷ []) ∷ [])
        two_events
      ≡ (ok (some (result simple_sql false state')), w'))
    × Updates log_json simple_sql
        (codes "c")
        false
        ("summary" ∷ [])
        0
        (("summary", 1) ∷ [])
        calendar
        service
        (row_a ∷ row_null ∷ [])
        (stored two_events)
        new_sink
        (stored w')
        state'
unfolding service store_service bytes_beq find_key
update_example =
    run_update_refines log_json simple_sql (codes "c") false ("summary" ∷ []) 0
      (("summary", 1) ∷ []) calendar service 1 ((row_a ∷ []) ∷ (row_null ∷ []) ∷ []) two_events
      log_json-IsLawful (inr (refl, tt)) (inr (omega arith, 3 ∷ [], refl), (inl refl, tt))
      (λ old body _ h. h.0, (λ old body _ h. h.0, tt)) (omega arith)

abbrev is_object_result : Result Bytes → Bool
is_object_result (ok body) = log_json.is_object body
is_object_result (throw e) = true

mapped_object :
    (r : Result Bytes)
    → is_object_result r ≡ true
    → (body : Bytes) → r ≡ ok body
    → (log_json.is_object body ≡ true) × (log_json.is_object body ≡ true)
mapped_object r h body e = (rw e at h, rw e at h)

insert_example :
    (state' : SinkState Cell) × (w' : Log) × (run_insert log_json simple_sql what
        (codes "c")
        true
        ("event_id" ∷ "summary" ∷ [])
        calendar
        service
        1
        ((row_a ∷ []) ∷ (row_new ∷ []) ∷ [])
        two_events
      ≡ (ok (some (result simple_sql true state')), w'))
    × Upserts log_json simple_sql what
        (codes "c")
        true
        ("event_id" ∷ "summary" ∷ [])
        calendar
        service
        (row_a ∷ row_new ∷ [])
        (stored two_events)
        new_sink
        (stored w')
        state'
unfolding row_to_event apply_row row_all_day apply_column put find_key bytes_beq service
    store_service
insert_example =
    run_insert_refines log_json simple_sql what (codes "c") true ("event_id" ∷ "summary" ∷ [])
      calendar service 1 ((row_a ∷ []) ∷ (row_new ∷ []) ∷ []) two_events log_json-IsLawful
      (
        (
          omega arith,
          mapped_object (row_to_event log_json simple_sql row_a ("event_id" ∷ "summary" ∷ [])) refl,
        ),
        (
          (
            tt,
            mapped_object (row_to_event log_json simple_sql row_new ("event_id" ∷ "summary" ∷ []))
                refl,
          ),
          tt,
        ),
      )
      (omega arith)
