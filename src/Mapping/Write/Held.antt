-- ===== src/Mapping/Write/Held.antt =====
-- What a column of UPDATE leaves in its field: the kind of column says how the value is encoded.
use mathlib.Core.Option
use duckdb_google_calendar.Common.{
  String, Bool, true, false, Option, none, some, some-injective, Bool-cases, Option-cases, inl, inr,
  ◌≡◌, refl, sym, ◌∙◌, subst, ◌==◌, string_eq, beq_refl, if◌then◌else◌, is_empty,
}
use duckdb_google_calendar.Common.Except.{Result, ok, throw, bind, json_call}
use duckdb_google_calendar.Json.{JsonLib, IsLawful}
use duckdb_google_calendar.Json.Laws.{put-Sets, remove-Sets}
use duckdb_google_calendar.Sql.{SqlLib}
use duckdb_google_calendar.Mapping.Columns.{
  find_key, writable_string_keys, writable_bool_keys, writable_json_keys,
}
use duckdb_google_calendar.Mapping.Times.{
  time_node, set_json_passthrough, format_date, format_rfc3339,
}
use duckdb_google_calendar.Mapping.Times.Laws.{time_node_lem, IsTimeNode}
use duckdb_google_calendar.Mapping.Write.{apply_nullable, apply_special, apply_column}
use duckdb_google_calendar.Mapping.Write.Cases.{
  Column, event_id, text, flag, raw, special, column, apply_as, apply_as_lem, is_time,
}
use duckdb_google_calendar.Mapping.Write.Table.{
  writable_columns, listed_text, listed_flag, listed_raw, listed_time, not_listed,
}

module _ (J : JsonLib) (S : SqlLib) where
  -- NULL leaves no field. A value of a text column is the text, one of a flag column the truth
  -- value, one of a JSON column what the text parses to, and one of `start` or `end` the time with
  -- the encoding that `all_day` asks for.
  abbrev pub Held : String → S.Value → Bool → Option J.Json → Type 0
  Held name val all_day m =
      if S.is_null val then m ≡ none else elim (find_key name writable_string_keys) [
        | some k ↦ m ≡ some (J.from_string (S.to_string val))
        | none ↦ elim (find_key name writable_bool_keys) [
          | some k ↦ m ≡ some (J.from_bool (S.get_boolean val))
          | none ↦ elim (find_key name writable_json_keys) [
            | some k ↦
                if is_empty (S.to_string val)
                then Unit
                else elim (J.parse (S.to_string val)) [ none ↦ Unit | some v ↦ m ≡ some v ]
            | none ↦
                (node : J.Json) × (m ≡ some node)
                × IsTimeNode J node all_day
                    (if all_day then format_date S val else format_rfc3339 S val)
          ]
        ]
      ]

  abbrev InResult : (J.Json → Type 0) → Result (J.Json × Bool) → Type 0
  InResult P (ok (event, writable)) = P event
  InResult P (throw e) = Unit

  module _ (L : IsLawful J) (event : J.Json) (object : J.is_object event ≡ true) (name key : String)
      (val : S.Value) (all_day : Bool) where
    abbrev Goal : Result (J.Json × Bool) → Type 0
    Goal = InResult (λ e. Held name val all_day (J.member e key))

    erased :
        (write : J.Json → Result J.Json)
        → S.is_null val ≡ true
        → Goal (apply_nullable J S event key val true write)
    erased write null =
        let (e', same, _, members) = remove-Sets J L event key object in
        rw (null, same) (members key ∙ rw (beq_refl key))

    text_Held :
        find_key name writable_string_keys ≡ some key
        → Goal (
            apply_nullable J S event key val true
              (λ e. json_call (J.put e key (J.from_string (S.to_string val)))))
    text_Held s = elim (Bool-cases (S.is_null val)) [
      | inl null ↦ erased (λ e. json_call (J.put e key (J.from_string (S.to_string val)))) null
      | inr set ↦
          let (e', same, _, members) =
            put-Sets J L event key (J.from_string (S.to_string val)) (inl object) in
          rw (set, s, same) (members key ∙ rw (beq_refl key))
    ]

    flag_Held :
        find_key name writable_string_keys ≡ none
        → find_key name writable_bool_keys ≡ some key
        → Goal (
            apply_nullable J S event key val true
              (λ e. json_call (J.put e key (J.from_bool (S.get_boolean val)))))
    flag_Held s b = elim (Bool-cases (S.is_null val)) [
      | inl null ↦ erased (λ e. json_call (J.put e key (J.from_bool (S.get_boolean val)))) null
      | inr set ↦
          let (e', same, _, members) =
            put-Sets J L event key (J.from_bool (S.get_boolean val)) (inl object) in
          rw (set, s, b, same) (members key ∙ rw (beq_refl key))
    ]

    passthrough_put :
        (v e' : J.Json)
        → S.is_null val ≡ false
        → is_empty (S.to_string val) ≡ false
        → J.parse (S.to_string val) ≡ some v
        → J.put event key v ≡ some e'
        → set_json_passthrough J S event key val ≡ e'
    unfolding set_json_passthrough Option.bind
    passthrough_put v e' set full parsed put = rw (set, full, parsed) (rw put refl)

    raw_Held :
        find_key name writable_string_keys ≡ none
        → find_key name writable_bool_keys ≡ none
        → find_key name writable_json_keys ≡ some key
        → Goal
            (apply_nullable J S event key val true (λ e. ok (set_json_passthrough J S e key val)))
    raw_Held s b j = elim (Bool-cases (S.is_null val)) [
      | inl null ↦ erased (λ e. ok (set_json_passthrough J S e key val)) null
      | inr set ↦ elim (Bool-cases (is_empty (S.to_string val))) [
        | inl empty ↦ rw (set, s, b, j, empty) tt
        | inr full ↦ elim (Option-cases (J.parse (S.to_string val))) [
          | inl no_json ↦ rw (set, s, b, j, full, no_json) tt
          | inr (v, parsed) ↦
              let (e', put, _) = L.put_total event key v (inl object) in
              rw (set, s, b, j, full, parsed, passthrough_put v e' set full parsed put)
                (L.member-put event key v e' key put ∙ rw (beq_refl key))
        ]
      ]
    ]

    time_Held :
        find_key name writable_string_keys ≡ none
        → find_key name writable_bool_keys ≡ none
        → find_key name writable_json_keys ≡ none
        → Goal (
            apply_nullable J S event key val true
              (λ e. bind (time_node J S val all_day) (λ node. json_call (J.put e key node))))
    time_Held s b j = elim (Bool-cases (S.is_null val)) [
      | inl null ↦
          erased (λ e. bind (time_node J S val all_day) (λ node. json_call (J.put e key node))) null
      | inr set ↦
          let (node, made, time) = time_node_lem J L S val all_day in
          let (e', same, _, members) = put-Sets J L event key node (inl object) in
          rw (set, s, b, j, made, same) (node, members key ∙ rw (beq_refl key), time)
    ]

  module _ (L : IsLawful J) (event : J.Json) (object : J.is_object event ≡ true) (name key : String)
      (val : S.Value) (all_day : Bool) where
    same_key :
        (k : String)
        → find_key name writable_columns ≡ some k
        → find_key name writable_columns ≡ some key
        → k ≡ key
    same_key k h listed = some-injective k key (sym h ∙ listed)

    abbrev At : Column name → String → Type 0
    At c q =
        InResult (λ e. Held name val all_day (J.member e q))
          (apply_as J S event name val all_day true c)

    kind_Held :
        (c : Column name)
        → find_key name writable_columns ≡ some key
        → (name == "event_id") ≡ false
        → InResult
            (λ e. Held name val all_day (J.member e key))
            (apply_as J S event name val all_day true c)
    unfolding apply_special
    kind_Held (event_id e) listed apart = absurd cc
    kind_Held (text k e s) listed apart =
        subst (At (text k e s)) (same_key k (listed_text name k s) listed)
          (text_Held L event object name k val all_day s)
    kind_Held (flag k e s b) listed apart =
        subst (At (flag k e s b)) (same_key k (listed_flag name k b) listed)
          (flag_Held L event object name k val all_day s b)
    kind_Held (raw k e s b j) listed apart =
        subst (At (raw k e s b j)) (same_key k (listed_raw name k j) listed)
          (raw_Held L event object name k val all_day s b j)
    kind_Held (special e s b j) listed apart = elim (Bool-cases (is_time name)) [
      | inr other ↦
          let out : find_key name writable_columns ≡ none = not_listed name e s b j other in
          absurd cc
      | inl time ↦
          subst (At (special e s b j)) (same_key name (listed_time name time) listed)
            (rw time (time_Held L event object name name val all_day s b j))
    ]

    -- What UPDATE applies to an object leaves the value of the column in its field.
    pub apply_column-Held :
        (e' : J.Json) (writable : Bool)
        → find_key name writable_columns ≡ some key
        → (name == "event_id") ≡ false
        → apply_column J S event name val all_day true ≡ ok (e', writable)
        → Held name val all_day (J.member e' key)
    apply_column-Held e' writable listed apart same =
        subst (InResult (λ e. Held name val all_day (J.member e key)))
          (sym (apply_as_lem J S event name val all_day true (column name)) ∙ same)
          (kind_Held (column name) listed apart)
