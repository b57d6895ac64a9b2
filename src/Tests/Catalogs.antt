-- ===== src/Tests/Catalogs.antt =====
-- Runs of the theorems about the tables of a catalog, their columns, and transactions.
use duckdb_google_calendar.Common.{
  ℕ, List, map, [], ◌∷◌, Option, none, some, false, Bytes, codes, ◌≡◌, refl, ◌⊎◌, String, bytes_beq,
  arith, ◌==◌, bytes_eq, if◌then◌else◌,
}
use duckdb_google_calendar.Common.Except.{ok, throw, invalid_input, Exec}
use duckdb_google_calendar.Transport.HttpType.{HttpResponse}
use duckdb_google_calendar.Transport.Mock.{MockHttpClient, mock_client}
use duckdb_google_calendar.Transport.Mock as Mock
use duckdb_google_calendar.Json.{JsonLib}
use duckdb_google_calendar.Json.Assoc.{Doc, str, obj, arr, nil, cons, end, field, assoc_json}
use duckdb_google_calendar.Sql.Simple.{simple_sql, type_of, type_of-IsTyped}
use duckdb_google_calendar.Dml.Merge.{
  LogicalMergeInto, MergeIntoOperator, MergeActionType, Distinct, wanted,
  plan_calendar_merge_into_action, plan-wanted,
}
use duckdb_google_calendar.Mapping.Read.{event_to_row}
use duckdb_google_calendar.Resources.Base.{Client, do_get, parse_response}
use duckdb_google_calendar.Resources.CalendarList.{
  CalendarListEntry, list_calendars, parse_list, parse_items, parse_entries, parse_entry,
  text_or_empty, flag_or_false,
}
use duckdb_google_calendar.Catalog.Schema.{events_columns}
use duckdb_google_calendar.Catalog.Schema.Types.{event_to_row-types}
use duckdb_google_calendar.Catalog.Load.{load_catalog}
use duckdb_google_calendar.Catalog.Load.Seen.{Listed, Target, Known}
use duckdb_google_calendar.Catalog.Load.Laws.{Answers, Mounts, load_catalog-Mounts}
use duckdb_google_calendar.Catalog.Transaction.Threads.{
  Turn, thread, returned, no_calls, enter, test_client, make_client, run_turns,
}
use duckdb_google_calendar.Catalog.Transaction.Threads.OneClient.{Settles}
use duckdb_google_calendar.Catalog.Transaction.Threads.Progress.{Completes}
use duckdb_google_calendar.Catalog.Transaction.Threads.Laws.{run_turns-OneClient}

-- Two pages of one calendar.
abbrev calendar_doc : String → Doc
calendar_doc s = obj (field "id" (str (codes s)) end)

abbrev page_doc : Bytes → Option Doc
page_doc body =
    if body == codes "1"
    then some (
        obj (
          field "nextPageToken" (str (codes "t"))
            (field "items" (arr (cons (calendar_doc "a") nil)) end)))
    else some (obj (field "items" (arr (cons (calendar_doc "b") nil)) end))

abbrev page_json : JsonLib
page_json = record assoc_json { parse = page_doc }

abbrev api : Client MockHttpClient
api = record { http = mock_client; headers = []; base_url = [] }

abbrev reply : String → HttpResponse
reply s = record { status_code = 200; headers = []; body = codes s }

abbrev server : ℕ → MockHttpClient
server n = record { response_index = n; responses = reply "1" ∷ reply "2" ∷ [] }

abbrev listed : String → CalendarListEntry
listed s = record { id = codes s; summary = []; description = []; time_zone = []; primary = false }

abbrev no_fold : Bytes → Bytes
no_fold s = s

-- The calendar "b" goes by the name of "work".
abbrev work : List (Bytes × Bytes)
work = (codes "work", codes "b") ∷ []

two-Answers :
    Answers no_fold work page_json api
      (listed "a" ∷ [])
      ((listed "b" ∷ []) ∷ [])
      []
      (server 0)
      (server 2)
unfolding list_calendars parse_list parse_items parse_entries parse_entry text_or_empty
    flag_or_false do_get parse_response mock_client Mock.execute bytes_beq
two-Answers = (codes "t", server 1, refl, refl, ([], refl, refl))

abbrev make : Exec MockHttpClient (Client MockHttpClient)
make w = (ok api, w)

-- The second thread waits until the first has made the client.
abbrev two_threads : List (Turn MockHttpClient)
two_threads = thread 0 ∷ thread 1 ∷ thread 0 ∷ thread 0 ∷ []

transaction_example :
    Settles make
      (run_turns make two_threads (no_calls (server 0)))
      ((run_turns make two_threads (no_calls (server 0))).calls 0)
    × Completes make 0 (run_turns make two_threads (no_calls (server 0)))
transaction_example = run_turns-OneClient make two_threads (server 0) 0

-- This call has indeed returned a client.
transaction_settled : (run_turns make two_threads (no_calls (server 0))).calls 0 ≡ returned api
unfolding run_turns enter test_client make_client
transaction_settled = refl

types_example :
    map type_of (
      event_to_row assoc_json simple_sql
        (calendar_doc "e")
        (map (λ c. c.0) events_columns)
        (codes "c"))
    ≡ map (λ c. c.1) events_columns
types_example =
    event_to_row-types assoc_json simple_sql type_of type_of-IsTyped (calendar_doc "e") (codes "c")

abbrev both : List CalendarListEntry
both = listed "a" ∷ listed "b" ∷ []

load_example :
    (Known no_fold work both
      × ((tables : List (Bytes × Bytes)) × (load_catalog no_fold page_json api 2 work (server 0)
            ≡ (ok (some tables), server 2))
          × Mounts no_fold work page_json api tables both))
    ⊎ ((id : Bytes) × Target id work
        × (Listed no_fold id both → ⊥)
        × (load_catalog no_fold page_json api 2 work (server 0) ≡ (
          throw (invalid_input "calendar_aliases refers to unknown calendar ID \"%s\"" (id ∷ [])),
          server 2,
        )))
load_example =
    load_catalog-Mounts no_fold work page_json api 2 (listed "a" ∷ []) ((listed "b" ∷ []) ∷ [])
      (server 0) (server 2) two-Answers (omega arith)

-- An INSERT of a MERGE into a table of two columns, of which the first is given.
abbrev into : LogicalMergeInto ℕ ℕ
into = record {
  types = 1 ∷ 2 ∷ [];
  return_chunk = false;
  row_id_start = 0;
  physical_columns = (0, 0) ∷ (1, 1) ∷ [];
  bound_defaults = 8 ∷ 9 ∷ [];
}

abbrev no_index : Option ℕ → ℕ
no_index e = 0

one_given : Distinct (some 0 ∷ none ∷ []) into.physical_columns
one_given = (λ i e. (λ h. absurd cc, tt), (λ i e. tt, tt))

merge_example :
    (r : MergeIntoOperator ℕ ℕ) × (plan_calendar_merge_into_action no_index into (record {
      action_type = MergeActionType.merge_insert;
      condition = none;
      expressions = some 5 ∷ [];
      columns = [];
      column_index_map = some 0 ∷ none ∷ [];
    })
      ≡ some r)
    × (r.condition ≡ none)
    × (r.expressions
        ≡ map (wanted (some 0 ∷ none ∷ []) into.bound_defaults (some 5 ∷ [])) into.physical_columns)
merge_example = plan-wanted no_index into none (some 5 ∷ []) [] (some 0) (none ∷ []) one_given
