-- ===== src/Catalog/Schema.antt =====
-- The columns of the table of a calendar: src/storage/event_schema.cpp
pub mod Types
use duckdb_google_calendar.Common.{
  ℕ, zero, suc, ◌+◌, List, [], ◌∷◌, Bool, true, false, not, ◌||◌, String, Bytes, codes, length,
  ◌==◌, nat_eq, bytes_eq, if◌then◌else◌,
}
use duckdb_google_calendar.Common.Decimal.{to_string}
use duckdb_google_calendar.Common.Except.{Result, ok, throw, binder}
use duckdb_google_calendar.Sql.{LogicalType}

-- What `AddEventsColumns` adds to a list without columns.
abbrev pub events_columns : List (String × LogicalType)
events_columns =
    ("calendar_id", LogicalType.varchar)
    ∷ ("event_id", LogicalType.varchar)
    ∷ ("summary", LogicalType.varchar)
    ∷ ("description", LogicalType.varchar)
    ∷ ("location", LogicalType.varchar)
    ∷ ("status", LogicalType.varchar)
    ∷ ("html_link", LogicalType.varchar)
    ∷ ("created", LogicalType.varchar)
    ∷ ("updated", LogicalType.varchar)
    ∷ ("start", LogicalType.timestamp_tz)
    ∷ ("end", LogicalType.timestamp_tz)
    ∷ ("all_day", LogicalType.boolean)
    ∷ ("color_id", LogicalType.varchar)
    ∷ ("transparency", LogicalType.varchar)
    ∷ ("visibility", LogicalType.varchar)
    ∷ ("event_type", LogicalType.varchar)
    ∷ ("recurring_event_id", LogicalType.varchar)
    ∷ ("original_start_time", LogicalType.timestamp_tz)
    ∷ ("ical_uid", LogicalType.varchar)
    ∷ ("sequence", LogicalType.bigint)
    ∷ ("etag", LogicalType.varchar)
    ∷ ("kind", LogicalType.varchar)
    ∷ ("hangout_link", LogicalType.varchar)
    ∷ ("creator", LogicalType.varchar)
    ∷ ("organizer", LogicalType.varchar)
    ∷ ("end_time_unspecified", LogicalType.boolean)
    ∷ ("attendees_omitted", LogicalType.boolean)
    ∷ ("anyone_can_add_self", LogicalType.boolean)
    ∷ ("guests_can_invite_others", LogicalType.boolean)
    ∷ ("guests_can_modify", LogicalType.boolean)
    ∷ ("guests_can_see_other_guests", LogicalType.boolean)
    ∷ ("private_copy", LogicalType.boolean)
    ∷ ("locked", LogicalType.boolean)
    ∷ ("attendees", LogicalType.varchar)
    ∷ ("recurrence", LogicalType.varchar)
    ∷ ("reminders", LogicalType.varchar)
    ∷ ("conference_data", LogicalType.varchar)
    ∷ ("extended_properties", LogicalType.varchar)
    ∷ ("source", LogicalType.varchar)
    ∷ ("attachments", LogicalType.varchar)
    ∷ ("working_location_properties", LogicalType.varchar)
    ∷ ("out_of_office_properties", LogicalType.varchar)
    ∷ ("focus_time_properties", LogicalType.varchar)
    ∷ []

-- A type of the engine: one of those above or another, by its name.
pub data ColumnType : Type 0 where
  of_type : LogicalType → ColumnType
  other_type : Bytes → ColumnType

abbrev pub type_name : LogicalType → Bytes
type_name LogicalType.varchar = codes "VARCHAR"
type_name LogicalType.boolean = codes "BOOLEAN"
type_name LogicalType.bigint = codes "BIGINT"
type_name LogicalType.timestamp_tz = codes "TIMESTAMP WITH TIME ZONE"
type_name LogicalType.sqlnull = codes "\"NULL\""

abbrev pub column_type_name : ColumnType → Bytes
column_type_name (of_type t) = type_name t
column_type_name (other_type name) = name

abbrev pub same_type : LogicalType → ColumnType → Bool
same_type t (other_type name) = false
same_type t (of_type u) = type_name t == type_name u

-- `fold` is the folding of case that `CIEquals` compares by.
module _ (fold : Bytes → Bytes) where
  -- The loop from index `i` on.
  unfoldable pub validate_loop :
      ℕ → List (String × LogicalType) → List (Bytes × ColumnType) → Result (Unit {0})
  validate_loop i ((want, t) ∷ expected) ((got, u) ∷ columns) =
      let rest = validate_loop (i + 1) expected columns in
      if not (fold (codes want) == fold got) || not (same_type t u)
      then throw (
          binder
            "CREATE TABLE column %llu must be \"%s\" %s to match the events schema, got \"%s\" %s"
            (to_string (i + 1) ∷ codes want ∷ type_name t ∷ got ∷ column_type_name u ∷ []))
      else rest
  validate_loop i [] columns = ok tt
  validate_loop i (c ∷ expected) [] = ok tt

  unfoldable pub validate_events_columns : List (Bytes × ColumnType) → Result (Unit {0})
  unfolding validate_loop
  validate_events_columns columns =
      if not (length columns == length events_columns)
      then throw (
          binder
            "CREATE TABLE in a google_calendar catalog must produce the events schema exactly (%llu columns), got %llu; try AS FROM <existing_calendar> WHERE false"
            (to_string (length events_columns) ∷ to_string (length columns) ∷ []))
      else validate_loop 0 events_columns columns
