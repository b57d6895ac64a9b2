-- ===== src/Sql.antt =====
-- The values of DuckDB, of which the extension is a client, as an interface.
pub mod Simple
use duckdb_google_calendar.Common.{String, Bytes, Bool, true, false, Option, none, some, ◌≡◌}
use duckdb_google_calendar.Common.Int.{ℤ}

pub data LogicalType : Type 0 where
  varchar boolean bigint timestamp_tz sqlnull : LogicalType

pub record SqlLib : Type 1 where
  pub Value : Type 0
  -- `Value(LogicalType)` is the NULL of the type; `Value()` is that of `SQLNULL`.
  pub null_of : LogicalType → Value
  pub varchar : Bytes → Value
  pub boolean : Bool → Value
  pub bigint : ℤ → Value
  -- Microseconds since the epoch, in UTC.
  pub timestamp_tz : ℤ → Value
  pub is_null : Value → Bool
  -- `ToString`, `BooleanValue::Get` and `GetValue<timestamp_tz_t>`.
  pub to_string : Value → Bytes
  pub get_boolean : Value → Bool
  pub get_timestamp_tz : Value → ℤ
  -- `DefaultTryCastAs(TIMESTAMP_TZ)`
  pub cast_timestamp_tz : Value → Option Value
  -- `Timestamp::ToString`
  pub timestamp_to_string : ℤ → Bytes

-- The documented behaviour that the properties rely on.
pub record IsLawful (S : SqlLib) : Type 0 where
  pub null_is_null : (t : LogicalType) → S.is_null (S.null_of t) ≡ true
  pub varchar_not_null : (s : Bytes) → S.is_null (S.varchar s) ≡ false
  pub boolean_not_null : (b : Bool) → S.is_null (S.boolean b) ≡ false
  pub timestamp_not_null : (t : ℤ) → S.is_null (S.timestamp_tz t) ≡ false
  pub to_string-varchar : (s : Bytes) → S.to_string (S.varchar s) ≡ s
  pub get_boolean-boolean : (b : Bool) → S.get_boolean (S.boolean b) ≡ b
  pub get_timestamp_tz-timestamp_tz : (t : ℤ) → S.get_timestamp_tz (S.timestamp_tz t) ≡ t

-- The types of values, and that of the result of a cast.
pub record IsTyped (S : SqlLib) (type_of : S.Value → LogicalType) : Type 0 where
  pub type_of-null_of : (t : LogicalType) → type_of (S.null_of t) ≡ t
  pub type_of-varchar : (s : Bytes) → type_of (S.varchar s) ≡ LogicalType.varchar
  pub type_of-boolean : (b : Bool) → type_of (S.boolean b) ≡ LogicalType.boolean
  pub type_of-bigint : (n : ℤ) → type_of (S.bigint n) ≡ LogicalType.bigint
  pub type_of-cast :
      (v t : S.Value) → S.cast_timestamp_tz v ≡ some t → type_of t ≡ LogicalType.timestamp_tz
