-- ===== src/Sql/Simple.antt =====
-- An implementation of the interface to DuckDB's values, which meets the laws. The tests run on it.
-- It prints the instant `n` microseconds after the epoch as a time on the first of January 1970,
-- and reads back what it prints.
use duckdb_google_calendar.Common.{
  Bytes, codes, Bool, true, false, Option, none, some, some-injective, refl, ◌≡◌, ap, sym,
}
use duckdb_google_calendar.Common.Int.{ℤ, pos}
use duckdb_google_calendar.Sql.{LogicalType, SqlLib, IsLawful, IsTyped}

pub data Cell : Type 0 where
  null_cell : LogicalType → Cell
  text : Bytes → Cell
  bool : Bool → Cell
  int : ℤ → Cell
  time : ℤ → Cell

abbrev is_null : Cell → Bool
is_null (null_cell t) = true
is_null _ = false

abbrev to_string : Cell → Bytes
to_string (text s) = s
to_string (bool true) = codes "true"
to_string (bool false) = codes "false"
to_string (null_cell t) = codes "NULL"
to_string (int n) = codes "0"
to_string (time n) = codes "1970-01-01 00:00:00"

abbrev get_boolean : Cell → Bool
get_boolean (bool b) = b
get_boolean _ = false

abbrev get_timestamp_tz : Cell → ℤ
get_timestamp_tz (time n) = n
get_timestamp_tz _ = pos 0

-- A time is cast to itself, and a text to the epoch.
abbrev cast : Cell → Option Cell
cast (time n) = some (time n)
cast (text s) = some (time (pos 0))
cast _ = none

abbrev pub simple_sql : SqlLib
simple_sql = record {
  Value = Cell;
  null_of = null_cell;
  varchar = text;
  boolean = bool;
  bigint = int;
  timestamp_tz = time;
  is_null = is_null;
  to_string = to_string;
  get_boolean = get_boolean;
  get_timestamp_tz = get_timestamp_tz;
  cast_timestamp_tz = cast;
  timestamp_to_string = λ n. codes "1970-01-01 00:00:00";
}

pub simple_sql-IsLawful : IsLawful simple_sql
simple_sql-IsLawful = record {
  null_is_null = λ t. refl;
  varchar_not_null = λ s. refl;
  boolean_not_null = λ b. refl;
  timestamp_not_null = λ t. refl;
  to_string-varchar = λ s. refl;
  get_boolean-boolean = λ b. refl;
  get_timestamp_tz-timestamp_tz = λ t. refl;
}

abbrev pub type_of : Cell → LogicalType
type_of (null_cell t) = t
type_of (text s) = LogicalType.varchar
type_of (bool b) = LogicalType.boolean
type_of (int n) = LogicalType.bigint
type_of (time n) = LogicalType.timestamp_tz

cast_type : (v t : Cell) → cast v ≡ some t → type_of t ≡ LogicalType.timestamp_tz
cast_type (time n) t h = sym (ap type_of (some-injective _ _ h))
cast_type (text s) t h = sym (ap type_of (some-injective _ _ h))
cast_type (null_cell u) t h = absurd cc
cast_type (bool b) t h = absurd cc
cast_type (int n) t h = absurd cc

pub type_of-IsTyped : IsTyped simple_sql type_of
type_of-IsTyped = record {
  type_of-null_of = λ t. refl;
  type_of-varchar = λ s. refl;
  type_of-boolean = λ b. refl;
  type_of-bigint = λ n. refl;
  type_of-cast = cast_type;
}
