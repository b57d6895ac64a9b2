-- ===== src/Catalog/Refuse.antt =====
-- The schema of the catalog, and the statements that are only refused
-- (src/storage/calendar_catalog.cpp, calendar_schema_entry.cpp).
use duckdb_google_calendar.Common.{
  [], ◌∷◌, Bool, ◌||◌, Bytes, codes, is_empty, Option, none, some, ◌==◌, bytes_eq, if◌then◌else◌,
}
use duckdb_google_calendar.Common.Except.{Exception, Result, ok, throw, binder, not_implemented}

-- `none` is a null pointer, and `some tt` the one schema of a catalog.
unfoldable pub lookup_schema : Bytes → Bool → Result (Option (Unit {0}))
lookup_schema schema_name return_null =
    if is_empty schema_name || schema_name == codes "main"
    then ok (some tt)
    else if return_null
    then ok none
    else throw (binder "Schema \"%s\" not found in google_calendar catalog" (schema_name ∷ []))

pub data Refused : Type 0 where
  create_schema drop_schema create_table alter : Refused
  create_function create_index create_view create_sequence : Refused
  create_table_function create_copy_function create_pragma_function : Refused
  create_collation create_type : Refused

abbrev pub reject_ddl : Exception
reject_ddl =
    not_implemented "google_calendar catalog is read/write for events only; DDL is not supported"

-- What each of these statements throws. CREATE TABLE is the form with a list of columns.
unfoldable pub refuse : Refused → Exception
refuse create_schema = not_implemented "google_calendar catalog does not support CREATE SCHEMA"
refuse drop_schema = not_implemented "google_calendar catalog does not support DROP SCHEMA"
refuse create_table =
    not_implemented
      "google_calendar: create a calendar with CREATE TABLE <name> AS <query> (e.g. AS FROM <existing_calendar> WHERE false for an empty one); CREATE TABLE with an explicit column list is not supported"
refuse alter =
    not_implemented "google_calendar catalog is read/write for events only; ALTER is not supported"
refuse _ = reject_ddl
