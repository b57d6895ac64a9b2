-- ===== src/Catalog/Schema/Types.antt =====
-- The values of a row are of the types of its columns.
use mathlib.Core.Option
use duckdb_google_calendar.Common.{
  List, [], ◌∷◌, map, Option, none, some, some-injective, String, Bytes, ◌==◌, string_eq,
  if◌then◌else◌, ◌≡◌, refl, ◌∙◌, Bool-cases, Option-cases, inl, inr, ap, All, get_or, drop,
}
use duckdb_google_calendar.Json.{JsonLib}
use duckdb_google_calendar.Sql.{SqlLib, LogicalType, IsTyped}
use duckdb_google_calendar.Mapping.Columns.{find_key, string_keys, raw_keys, bool_keys}
use duckdb_google_calendar.Mapping.Times.{raw_time, existing_all_day}
use duckdb_google_calendar.Mapping.Read.{
  json_string, json_raw, json_bool, json_bigint, parse_event_time, extract_special, extract_field,
  event_to_row,
}
use duckdb_google_calendar.Catalog.Schema.{events_columns}

-- The type that each reader gives.
abbrev special_type : String → Option LogicalType
special_type field =
    if field == "start"
    then some LogicalType.timestamp_tz
    else if field == "end"
    then some LogicalType.timestamp_tz
    else if field == "original_start_time"
    then some LogicalType.timestamp_tz
    else if field == "all_day"
    then some LogicalType.boolean
    else if field == "sequence"
    then some LogicalType.bigint
    else none

abbrev field_type : String → Option LogicalType
field_type field = elim (find_key field string_keys) [
  | some key ↦ some LogicalType.varchar
  | none ↦ elim (find_key field raw_keys) [
    | some key ↦ some LogicalType.varchar
    | none ↦ elim (find_key field bool_keys) [
      | some key ↦ some LogicalType.boolean
      | none ↦ special_type field
    ]
  ]
]

module _ (J : JsonLib) (S : SqlLib) where
  module _ (type_of : S.Value → LogicalType) (T : IsTyped S type_of) (event : J.Json) where
    string_type : (key : String) → type_of (json_string J S event key) ≡ LogicalType.varchar
    unfolding json_string
    string_type key = elim (Option-cases (J.member event key)) [
      | inl absent ↦ rw (absent, json_string) (T.type_of-null_of LogicalType.varchar)
      | inr (v, here) ↦ elim (Bool-cases (J.is_null v)) [
        | inl null ↦ rw (here, null, json_string) (T.type_of-null_of LogicalType.varchar)
        | inr set ↦ elim (Option-cases (J.as_string v)) [
          | inl other ↦ rw (here, set, other, json_string) (T.type_of-varchar (J.dump v))
          | inr (s, text) ↦ rw (here, set, text, json_string) (T.type_of-varchar s)
        ]
      ]
    ]

    raw_type : (key : String) → type_of (json_raw J S event key) ≡ LogicalType.varchar
    unfolding json_raw
    raw_type key = elim (Option-cases (J.member event key)) [
      | inl absent ↦ rw (absent, json_raw) (T.type_of-null_of LogicalType.varchar)
      | inr (v, here) ↦ elim (Bool-cases (J.is_null v)) [
        | inl null ↦ rw (here, null, json_raw) (T.type_of-null_of LogicalType.varchar)
        | inr set ↦ rw (here, set, json_raw) (T.type_of-varchar (J.dump v))
      ]
    ]

    bool_type : (key : String) → type_of (json_bool J S event key) ≡ LogicalType.boolean
    unfolding json_bool
    bool_type key = elim (Option-cases (Option.bind (J.member event key) J.as_bool)) [
      | inl absent ↦ rw (absent, json_bool) (T.type_of-null_of LogicalType.boolean)
      | inr (b, here) ↦ rw (here, json_bool) (T.type_of-boolean b)
    ]

    bigint_type : (key : String) → type_of (json_bigint J S event key) ≡ LogicalType.bigint
    unfolding json_bigint
    bigint_type key = elim (Option-cases (Option.bind (J.member event key) J.as_int)) [
      | inl absent ↦ rw (absent, json_bigint) (T.type_of-null_of LogicalType.bigint)
      | inr (n, here) ↦ rw (here, json_bigint) (T.type_of-bigint n)
    ]

    time_type :
        (which : String) → type_of (parse_event_time J S event which) ≡ LogicalType.timestamp_tz
    unfolding parse_event_time
    time_type which = elim (Option-cases (J.member event which)) [
      | inl absent ↦ rw (absent, parse_event_time) null_type
      | inr (node, here) ↦ elim (Bool-cases (J.is_object node)) [
        | inr other ↦ rw (here, other, parse_event_time) null_type
        | inl object ↦ elim (Option-cases (raw_time J node)) [
          | inl none_raw ↦ rw (here, object, none_raw, parse_event_time) null_type
          | inr (raw, is) ↦ elim (Option-cases (S.cast_timestamp_tz (S.varchar raw))) [
            | inl failed ↦ rw (here, object, is, failed, parse_event_time) null_type
            | inr (t, cast) ↦
                rw (here, object, is, cast, parse_event_time)
                  (T.type_of-cast (S.varchar raw) t cast)
          ]
        ]
      ]
    ]
      where
        null_type : type_of (S.null_of LogicalType.timestamp_tz) ≡ LogicalType.timestamp_tz
        null_type = T.type_of-null_of LogicalType.timestamp_tz

    special_typed :
        (field : String) (t : LogicalType)
        → special_type field ≡ some t
        → type_of (extract_special J S event field) ≡ t
    unfolding extract_special
    special_typed field t h = elim (Bool-cases (field == "start")) [
      | inl e1 ↦ rw (e1, extract_special) (time_type "start" ∙ some-injective _ _ (rw e1 at h))
      | inr n1 ↦ elim (Bool-cases (field == "end")) [
        | inl e2 ↦
            rw (n1, e2, extract_special) (time_type "end" ∙ some-injective _ _ (rw (n1, e2) at h))
        | inr n2 ↦ elim (Bool-cases (field == "original_start_time")) [
          | inl e3 ↦
              rw (n1, n2, e3, extract_special)
                (time_type "originalStartTime" ∙ some-injective _ _ (rw (n1, n2, e3) at h))
          | inr n3 ↦ elim (Bool-cases (field == "all_day")) [
            | inl e4 ↦
                rw (n1, n2, n3, e4, extract_special)
                  (T.type_of-boolean (existing_all_day J event)
                    ∙ some-injective _ _ (rw (n1, n2, n3, e4) at h))
            | inr n4 ↦ elim (Bool-cases (field == "sequence")) [
              | inl e5 ↦
                  rw (n1, n2, n3, n4, e5, extract_special)
                    (bigint_type "sequence" ∙ some-injective _ _ (rw (n1, n2, n3, n4, e5) at h))
              | inr n5 ↦ absurd cc (rw (n1, n2, n3, n4, n5) at h)
            ]
          ]
        ]
      ]
    ]

    field_typed :
        (field : String) (t : LogicalType)
        → field_type field ≡ some t
        → type_of (extract_field J S event field) ≡ t
    unfolding extract_field
    field_typed field t h = elim (Option-cases (find_key field string_keys)) [
      | inr (key, e) ↦
          rw (e, extract_field) (string_type key ∙ some-injective _ _ (rw (e, field_type) at h))
      | inl n1 ↦ elim (Option-cases (find_key field raw_keys)) [
        | inr (key, e) ↦
            rw (n1, e, extract_field)
              (raw_type key ∙ some-injective _ _ (rw (n1, e, field_type) at h))
        | inl n2 ↦ elim (Option-cases (find_key field bool_keys)) [
          | inr (key, e) ↦
              rw (n1, n2, e, extract_field)
                (bool_type key ∙ some-injective _ _ (rw (n1, n2, e, field_type) at h))
          | inl n3 ↦
              rw (n1, n2, n3, extract_field)
                (special_typed field t (rw (n1, n2, n3, field_type) at h))
        ]
      ]
    ]

    -- A column with the id of the calendar, or with a field.
    abbrev column_type : String → Option LogicalType
    column_type name =
        let field = field_type name in
        if name == "calendar_id" then some LogicalType.varchar else field

    abbrev cell : Bytes → String → S.Value
    cell calendar_id name =
        if name == "calendar_id" then S.varchar calendar_id else extract_field J S event name

    cell_typed :
        (calendar_id : Bytes) (name : String) (t : LogicalType)
        → column_type name ≡ some t
        → type_of (cell calendar_id name) ≡ t
    cell_typed calendar_id name t h = elim (Bool-cases (name == "calendar_id")) [
      | inl e ↦ rw e (T.type_of-varchar calendar_id ∙ some-injective _ _ (rw e at h))
      | inr n ↦ rw n (field_typed name t (rw n at h))
    ]

    row_typed :
        (calendar_id : Bytes) (columns : List (String × LogicalType))
        → All (λ c. column_type c.0 ≡ some c.1) columns
        → map type_of (map (cell calendar_id) (map (λ c. c.0) columns)) ≡ map (λ c. c.1) columns
    row_typed calendar_id [] _ = refl
    row_typed calendar_id ((name, t) ∷ columns) (h, hs) =
        rw (cell_typed calendar_id name t h, row_typed calendar_id columns hs) refl

    -- Whatever a JSON value the event is, the values of its row are one by one of the types that
    -- the columns of the table are declared with, in the order of the columns, provided that the
    -- values of the engine, its casts to a time among them, have the types they are made with.
    pub event_to_row-types :
        (calendar_id : Bytes)
        → map type_of (event_to_row J S event (map (λ c. c.0) events_columns) calendar_id)
          ≡ map (λ c. c.1) events_columns
    unfolding event_to_row find_key
    event_to_row-types calendar_id =
        row_typed calendar_id events_columns (all_typed events_columns refl)
      where
        types_of : List (String × LogicalType) → List (Option LogicalType)
        types_of columns = map (λ c. column_type c.0) columns

        all_typed :
            (columns : List (String × LogicalType))
            → types_of columns ≡ map (λ c. some c.1) columns
            → All (λ c. column_type c.0 ≡ some c.1) columns
        all_typed [] _ = tt
        all_typed (c ∷ columns) h =
            (ap (λ xs. get_or xs 0 none) h, all_typed columns (ap (λ xs. drop 1 xs) h))
