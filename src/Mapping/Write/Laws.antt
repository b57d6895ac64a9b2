-- ===== src/Mapping/Write/Laws.antt =====
-- `ApplyColumn` on an event body: it does not throw, says whether the column may be written, and
-- leaves the fields of the other columns alone.
use mathlib.Core.Option
use duckdb_google_calendar.Common.{
  String, Bool, true, false, not, ◌&&◌, ◌||◌, Option, none, some, Option-cases, Bool-cases, inl,
  inr, ◌≡◌, refl, ◌∙◌, ◌==◌, string_eq, if◌then◌else◌, arith, eq_iff, is_empty,
}
use duckdb_google_calendar.Common.Except.{Result, ok, bind, json_call}
use duckdb_google_calendar.Json.{JsonLib, IsLawful}
use duckdb_google_calendar.Json.Laws.{IsBody, Sets, put-Sets, remove-Sets}
use duckdb_google_calendar.Sql.{SqlLib}
use duckdb_google_calendar.Mapping.Columns.{find_key}
use duckdb_google_calendar.Mapping.Times.{
  set_json_passthrough, time_node, reencode_time_node, raw_time,
}
use duckdb_google_calendar.Mapping.Times.Laws.{time_node_lem, reencode_time_lem}
use duckdb_google_calendar.Mapping.Write.{
  apply_nullable, apply_special, apply_column, reencode_both,
}
use duckdb_google_calendar.Mapping.Write.Cases.{
  Column, event_id, text, flag, raw, special, column, apply_as, apply_as_lem, is_time,
}
use duckdb_google_calendar.Mapping.Write.Table.{
  writable_columns, is_writable, touches, listed_text, listed_flag, listed_raw, listed_time,
  not_listed,
}

-- What the two tests come to where the list has the column.
module _ (name key : String) (listed : find_key name writable_columns ≡ some key) where
  writable_listed : (update : Bool) → (name == "event_id") ≡ false → is_writable update name ≡ true
  writable_listed update e = rw (listed, e) (ground arith)

  touches_listed : (k : String) → touches name k ≡ false → (k == key) ≡ false
  touches_listed k h = false_or _ _ (rw listed at h)
    where
      false_or : (a b : Bool) → (a || b) ≡ false → b ≡ false
      false_or a b h = ground arith

module _ (J : JsonLib) where
  -- An event body stays one, and an object stays an object.
  abbrev pub StaysBody : J.Json → J.Json → Type 0
  StaysBody event event' = IsBody J event' × (J.is_object event ≡ true → J.is_object event' ≡ true)

  -- A step that changes one member at most.
  abbrev Changes : J.Json → String → Result J.Json → Type 0
  Changes event key r =
      (event' : J.Json) × (r ≡ ok event')
      × StaysBody event event'
      × ((k : String) → (k == key) ≡ false → J.member event' k ≡ J.member event k)

  of_Sets :
      {event : J.Json} (key : String) (v : Option J.Json) {r : Result J.Json}
      → Sets J event key v r
      → Changes event key r
  of_Sets key v (event', e, object, members) =
      (event', e, (inl object, λ _. object), λ k other. members k ∙ rw other)

  unchanged : (event : J.Json) (key : String) → IsBody J event → Changes event key (ok event)
  unchanged event key body = (event, refl, (body, λ o. o), λ k other. refl)

  -- The outcome of a call of `ApplyColumn`.
  abbrev pub Writes : J.Json → String → Bool → Result (J.Json × Bool) → Type 0
  Writes event name update r =
      (event' : J.Json) × (r ≡ ok (event', is_writable update name))
      × StaysBody event event'
      × ((k : String) → touches name k ≡ false → J.member event' k ≡ J.member event k)

  Writes-of_Changes :
      (event : J.Json) (name key : String) (update : Bool) (r : Result J.Json)
      → find_key name writable_columns ≡ some key
      → (name == "event_id") ≡ false
      → Changes event key r
      → Writes event name update (bind r (λ changed. ok (changed, true)))
  Writes-of_Changes event name key update r listed e (event', same, body, others) = (
    event',
    rw (same, writable_listed name key listed update e),
    body,
    λ k h. others k (touches_listed name key listed k h),
  )

  module _ (L : IsLawful J) (S : SqlLib) where
    nullable_lem :
        (event : J.Json) (name key : String) (val : S.Value) (update : Bool)
        (write : J.Json → Result J.Json)
        → find_key name writable_columns ≡ some key
        → (name == "event_id") ≡ false
        → IsBody J event
        → (update ≡ true → J.is_object event ≡ true)
        → Changes event key (write event)
        → Writes event name update (apply_nullable J S event key val update write)
    nullable_lem event name key val update write listed e body object written =
        Writes-of_Changes event name key update _ listed e (by_null (S.is_null val) update object)
      where
        by_null :
            (null update : Bool)
            → (update ≡ true → J.is_object event ≡ true)
            → Changes event key (
                if null
                then (if update then json_call (J.remove event key) else ok event)
                else write event)
        by_null true true object = of_Sets key none (remove-Sets J L event key (object refl))
        by_null true false object = unchanged event key body
        by_null false update object = written

    passthrough_lem :
        (event : J.Json) (key : String) (val : S.Value)
        → IsBody J event
        → Changes event key (ok (set_json_passthrough J S event key val))
    unfolding Option.bind set_json_passthrough
    passthrough_lem event key val body =
        go (S.is_null val) (is_empty (S.to_string val)) (J.parse (S.to_string val))
      where
        put_or_keep : J.Json → J.Json
        put_or_keep v = Option.get_or (J.put event key v) event

        put_lem : (v : J.Json) → Changes event key (ok (put_or_keep v))
        put_lem v =
            let (event', e, object) = L.put_total event key v body in
            let kept : put_or_keep v ≡ event' = rw e in
            (
              event',
              rw kept,
              (inl object, λ _. object),
              λ k other. L.member-put event key v event' k e ∙ rw other,
            )

        go :
            (null empty : Bool) (parsed : Option J.Json)
            → Changes event key (
                ok (
                  if null
                  then event
                  else if empty
                  then event
                  else Option.get_or (Option.bind parsed (λ v. J.put event key v)) event))
        go true empty parsed = unchanged event key body
        go false true parsed = unchanged event key body
        go false false none = unchanged event key body
        go false false (some v) = put_lem v

    time_lem :
        (event : J.Json) (key : String) (val : S.Value) (all_day : Bool)
        → IsBody J event
        → Changes event key
            (bind (time_node J S val all_day) (λ node. json_call (J.put event key node)))
    time_lem event key val all_day body =
        let (node, e, _) = time_node_lem J L S val all_day in
        rw e (of_Sets key (some node) (put-Sets J L event key node body))

    reencode_lem :
        (event : J.Json) (key : String) (all_day : Bool)
        → IsBody J event
        → Changes event key (reencode_time_node J event key all_day)
    reencode_lem event key all_day body = elim (Option-cases (J.member event key)) [
      | inl absent ↦ keep (unfold reencode_time_node in rw (absent, reencode_time_node))
      | inr (node, here) ↦ elim (Bool-cases (J.is_object node)) [
        | inr scalar ↦ keep (unfold reencode_time_node in rw (here, scalar, reencode_time_node))
        | inl object ↦ elim (Option-cases (raw_time J node)) [
          | inl no_time ↦
              keep (unfold reencode_time_node in rw (here, object, no_time, reencode_time_node))
          | inr (old, time) ↦
              let (rebuilt, _, sets) =
                reencode_time_lem J L event key all_day node old body here object time in
              of_Sets key (some rebuilt) sets
        ]
      ]
    ]
      where
        keep :
            reencode_time_node J event key all_day ≡ ok event
            → Changes event key (reencode_time_node J event key all_day)
        keep e = (event, e, (body, λ o. o), λ k other. refl)

    -- Both nodes, in turn.
    both_lem :
        (event : J.Json) (all_day : Bool)
        → IsBody J event
        → (event' : J.Json) × (reencode_both J S event all_day ≡ ok (event', true))
          × StaysBody event event'
          × ((k : String) → is_time k ≡ false → J.member event' k ≡ J.member event k)
    unfolding reencode_both
    both_lem event all_day body =
        let (e1, same1, (body1, object1), others1) = reencode_lem event "start" all_day body in
        let (e2, same2, (body2, object2), others2) = reencode_lem e1 "end" all_day body1 in
        (
          e2,
          rw (same1, same2),
          (body2, λ o. object2 (object1 o)),
          λ k h. others2 k (ground arith) ∙ others1 k (ground arith),
        )

    put_lem :
        (event : J.Json) (key : String) (v : J.Json)
        → IsBody J event
        → Changes event key (json_call (J.put event key v))
    put_lem event key v body = of_Sets key (some v) (put-Sets J L event key v body)

    id_lem :
        (event : J.Json) (val : S.Value) (null update : Bool)
        → IsBody J event
        → Writes event "event_id" update (
            if update
            then ok (event, false)
            else if not null
            then bind
                (json_call (J.put event "id" (J.from_string (S.to_string val))))
                (λ e. ok (e, true))
            else ok (event, true))
    unfolding find_key
    id_lem event val null true body = (event, refl, (body, λ o. o), λ k h. refl)
    id_lem event val true false body = (event, refl, (body, λ o. o), λ k h. refl)
    id_lem event val false false body =
        let (event', e, body', others) =
          put_lem event "id" (J.from_string (S.to_string val)) body in
        (event', rw e, body', others)

    -- `all_day`, and the columns that may not be written.
    rest_lem :
        (event : J.Json) (name : String) (all_day update : Bool)
        → find_key name writable_columns ≡ none
        → IsBody J event
        → Writes event name update (
            if name == "all_day"
            then (if update then reencode_both J S event all_day else ok (event, true))
            else ok (event, false))
    rest_lem event name all_day update out body = elim (Bool-cases (name == "all_day")) [
      | inl here ↦ rw (out, here) (by_mode update)
      | inr other ↦ rw (out, other) (event, refl, (body, λ o. o), λ k h. refl)
    ]
      where
        by_mode :
            (update : Bool)
            → (event' : J.Json) × ((if update
                  then reencode_both J S event all_day
                  else ok (event, true))
                ≡ ok (event', true))
              × StaysBody event event'
              × ((k : String)
                  → (true && is_time k || false) ≡ false
                  → J.member event' k ≡ J.member event k)
        by_mode true =
            let (event', e, body', others) = both_lem event all_day body in
            (event', e, body', λ k h. others k (ground arith))
        by_mode false = (event, refl, (body, λ o. o), λ k h. refl)

    special_lem :
        (event : J.Json) (name : String) (val : S.Value) (all_day update : Bool)
        → (name == "event_id") ≡ false
        → (is_time name ≡ false → find_key name writable_columns ≡ none)
        → IsBody J event
        → (update ≡ true → J.is_object event ≡ true)
        → Writes event name update (apply_special J S event name val all_day update)
    unfolding apply_special
    special_lem event name val all_day update e out body object = elim (Bool-cases (is_time name)) [
      | inl time ↦ rw time (
          nullable_lem event name name val update
            (λ j. bind (time_node J S val all_day) (λ node. json_call (J.put j name node)))
            (listed_time name time) e body object (time_lem event name val all_day body))
      | inr other ↦ rw other (rest_lem event name all_day update (out other) body)
    ]

    column_lem :
        (event : J.Json) (name : String) (val : S.Value) (all_day update : Bool) (c : Column name)
        → IsBody J event
        → (update ≡ true → J.is_object event ≡ true)
        → Writes event name update (apply_as J S event name val all_day update c)
    column_lem event name val all_day update (event_id e) body object =
        let same : name ≡ "event_id" = (eq_iff name "event_id").0 e in
        rw same (id_lem event val (S.is_null val) update body)
    column_lem event name val all_day update (text key e s) body object =
        nullable_lem event name key val update
          (λ j. json_call (J.put j key (J.from_string (S.to_string val)))) (listed_text name key s)
          e body object (put_lem event key _ body)
    column_lem event name val all_day update (flag key e s b) body object =
        nullable_lem event name key val update
          (λ j. json_call (J.put j key (J.from_bool (S.get_boolean val)))) (listed_flag name key b)
          e body object (put_lem event key _ body)
    column_lem event name val all_day update (raw key e s b j) body object =
        nullable_lem event name key val update (λ j. ok (set_json_passthrough J S j key val))
          (listed_raw name key j) e body object (passthrough_lem event key val body)
    column_lem event name val all_day update (special e s b j) body object =
        special_lem event name val all_day update e (not_listed name e s b j) body object

    -- On an event body (for UPDATE an object) `ApplyColumn` does not throw, for every column,
    -- value and mode: its result says whether the README lists the column as writable in the mode,
    -- the event stays a body and an object an object, and no field but those of the column is
    -- changed.
    pub apply_column_lem :
        (event : J.Json) (name : String) (val : S.Value) (all_day update : Bool)
        → IsBody J event
        → (update ≡ true → J.is_object event ≡ true)
        → Writes event name update (apply_column J S event name val all_day update)
    apply_column_lem event name val all_day update body object =
        rw (apply_as_lem J S event name val all_day update (column name))
          (column_lem event name val all_day update (column name) body object)
