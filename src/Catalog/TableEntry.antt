-- ===== src/Catalog/TableEntry.antt =====
-- src/storage/calendar_table_entry.cpp: the table of a calendar, and what a scan of it is bound to
-- (src/storage/calendar_scan.cpp).
use duckdb_google_calendar.Common.{List, [], ◌∷◌, String, Bytes, map}
use duckdb_google_calendar.Sql.{LogicalType}
use duckdb_google_calendar.Catalog.Schema.{events_columns}
use duckdb_google_calendar.Scan.Filter.{BindData, no_bounds}
use duckdb_google_calendar.Scan.Pages.{ColumnId, row_id}

pub record CalendarTableEntry : Type 0 where
  pub name : Bytes
  pub columns : List (String × LogicalType)
  pub calendar_id : Bytes

-- The entry that LoadCatalog and CREATE TABLE AS make.
unfoldable pub new_entry : Bytes → Bytes → CalendarTableEntry
new_entry name calendar_id = record {
  name = name;
  columns = events_columns;
  calendar_id = calendar_id;
}

-- `CalendarScanBindData`, with the bounds that the filters fill in.
pub record CalendarScanBindData : Type 0 where
  pub table : CalendarTableEntry
  pub calendar_id : Bytes
  pub names : List String
  pub types : List LogicalType
  pub bounds : BindData

unfoldable pub make_calendar_scan_bind_data :
    CalendarTableEntry → Bytes → List String → List LogicalType → CalendarScanBindData
make_calendar_scan_bind_data table calendar_id names types = record {
  table = table;
  calendar_id = calendar_id;
  names = names;
  types = types;
  bounds = no_bounds;
}

-- `GetScanFunction`, which makes the data that its function is bound to.
unfoldable pub get_scan_function : CalendarTableEntry → CalendarScanBindData
unfolding make_calendar_scan_bind_data
get_scan_function entry =
    make_calendar_scan_bind_data entry entry.calendar_id (map (λ (name, type). name) entry.columns)
      (map (λ (name, type). type) entry.columns)

-- `CalendarScanGetBindInfo`: the table that MERGE, UPDATE and DELETE work on.
unfoldable pub get_bind_info : CalendarScanBindData → CalendarTableEntry
get_bind_info bind_data = bind_data.table

unfoldable pub get_row_id_columns : List ColumnId
get_row_id_columns = row_id ∷ []

unfoldable pub get_virtual_columns : List (ColumnId × String × LogicalType)
get_virtual_columns = (row_id, "rowid", LogicalType.varchar) ∷ []
