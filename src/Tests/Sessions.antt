-- ===== src/Tests/Sessions.antt =====
-- A run of the theorem about DROP: a session that made a calendar and drops it.
use duckdb_google_calendar.Common.{
  ℕ, List, map, [], ◌∷◌, some, true, false, Bytes, codes, ◌≡◌, refl, ◌⊎◌, bytes_beq,
}
use duckdb_google_calendar.Transport.HttpType.{HttpResponse}
use duckdb_google_calendar.Transport.Mock.{MockHttpClient, mock_client}
use duckdb_google_calendar.Transport.Mock as Mock
use duckdb_google_calendar.Json.Assoc.{assoc_json}
use duckdb_google_calendar.Resources.Base.{Client, do_post, parse_response}
use duckdb_google_calendar.Resources.Calendars.{insert_calendar}
use duckdb_google_calendar.Resources.CalendarList.{parse_entry, text_or_empty, flag_or_false}
use duckdb_google_calendar.Catalog.{
  CatalogState, find_table, add_table, mark_created, was_created, create_table_as, drop_entry,
}
use duckdb_google_calendar.Catalog.Schema.{
  ColumnType, of_type, events_columns, validate_events_columns, validate_loop,
}
use duckdb_google_calendar.Catalog.Drop.{Reaches, attached, create_step, IsAmong, drop_entry_safe}

abbrev no_fold : Bytes → Bytes
no_fold s = s

abbrev api : Client MockHttpClient
api = record { http = mock_client; headers = []; base_url = [] }

abbrev reply : ℕ → Bytes → HttpResponse
reply n body = record { status_code = n; headers = []; body = body }

abbrev replies : ℕ → MockHttpClient
replies n = record { response_index = n; responses = reply 200 (codes "{}") ∷ reply 204 [] ∷ [] }

abbrev one_table : CatalogState
one_table = record { tables = (codes "new", []) ∷ []; created_calendar_ids = [] ∷ [] }

abbrev all_columns : List (Bytes × ColumnType)
all_columns = map (λ c. (codes c.0, of_type c.1)) events_columns

made_one : Reaches no_fold assoc_json api ([] ∷ []) one_table
unfolding create_table_as validate_events_columns validate_loop insert_calendar parse_entry
    text_or_empty flag_or_false do_post parse_response mock_client Mock.execute bytes_beq add_table
    mark_created was_created
made_one =
    create_step all_columns (codes "new") (replies 0) (replies 1) one_table [] (attached []) refl

drop_example :
    ((drop_entry no_fold assoc_json api true false (codes "new") one_table (replies 1)).1
      ≡ replies 1)
    ⊎ ((id : Bytes) × (find_table no_fold (codes "new") one_table.tables ≡ some id)
        × IsAmong no_fold assoc_json api id ([] ∷ []))
drop_example =
    drop_entry_safe no_fold assoc_json api ([] ∷ []) one_table true false (codes "new") (replies 1)
      made_one
