-- ===== src/Dml/Update/Laws.antt =====
-- What an UPDATE does to the event that it fetched.
use duckdb_google_calendar.Common.{
  List, [], ◌∷◌, Bool, true, false, String, codes, string_eq, if◌then◌else◌, All, ◌≡◌, refl, sym,
  subst, ◌==◌, ◌∙◌, ◌⊎◌, inl, inr, Bool-cases, map, Option, none, some, some-injective,
}
use duckdb_google_calendar.Common.Except.{Result, ok, throw, invalid_input, Exception}
use duckdb_google_calendar.Json.{JsonLib, IsLawful}
use duckdb_google_calendar.Sql.{SqlLib}
use duckdb_google_calendar.Mapping.Write.{apply_column, apply_set}
use duckdb_google_calendar.Mapping.Write.Table.{is_writable, touches, writable_columns}
use duckdb_google_calendar.Mapping.Write.Held.{Held, apply_column-Held}
use duckdb_google_calendar.Mapping.Columns.{find_key}
use duckdb_google_calendar.Mapping.Write.Laws.{apply_column_lem}
use duckdb_google_calendar.Dml.Sink.{Row}
use duckdb_google_calendar.Dml.Update.{Sets, apply_one, apply_sets}

abbrev pub set_names : Sets → List String
set_names = map (λ (name, _). name)

-- The first column of SET that UPDATE may not write.
abbrev pub first_read_only : Sets → Option String
first_read_only [] = none
first_read_only ((name, c) ∷ sets) =
    let rest = first_read_only sets in if is_writable true name then rest else some name

abbrev pub read_only_error : String → Exception
read_only_error name =
    invalid_input "google_calendar: column \"%s\" is read-only and cannot be updated"
      (codes name ∷ [])

module _ (J : JsonLib) (S : SqlLib) where
  -- Each column of SET has left its value in its field, unless a later one is about the same field.
  abbrev pub Shows : Row S → Sets → Bool → J.Json → Type 0
  Shows row [] all_day event = Unit
  Shows row ((name, c) ∷ sets) all_day event =
      ((key : String)
        → find_key name writable_columns ≡ some key
        → (name == "event_id") ≡ false
        → All (λ n. touches n key ≡ false) (set_names sets)
        → Held J S name (row c) all_day (J.member event key))
      × Shows row sets all_day event

  -- What the columns of SET make of an object: an object with their values, in which no field is
  -- changed but those of the columns.
  abbrev pub Changed : Row S → Sets → Bool → J.Json → J.Json → Type 0
  Changed row sets all_day event event' =
      (J.is_object event' ≡ true)
      × Shows row sets all_day event'
      × ((k : String)
          → All (λ name. touches name k ≡ false) (set_names sets)
          → J.member event' k ≡ J.member event k)

module _ (J : JsonLib) (L : IsLawful J) (S : SqlLib) (return_chunk : Bool) where
  -- The outcome of all columns of SET on an event.
  abbrev pub Applies : Row S → Sets → Bool → J.Json → Result J.Json → Type 0
  Applies row sets all_day event r =
      (event' : J.Json) × (r ≡ ok event') × Changed J S row sets all_day event event'

  -- With RETURNING, or where every column of SET may be written, UPDATE applies all columns to the
  -- fetched object without an exception. The result is an object in which each column but
  -- `event_id` and `all_day`, which have no field that UPDATE sets to their value, has left its
  -- value in its field, unless a later column is about the same field: no field for NULL, the
  -- text, the truth value, what a JSON text parses to, or the time in the encoding asked for; and
  -- no field is changed but those of the columns.
  pub apply_sets_lem :
      (row : Row S) (sets : Sets) (all_day : Bool) (event : J.Json)
      → J.is_object event ≡ true
      → (return_chunk ≡ true) ⊎ All (λ name. is_writable true name ≡ true) (set_names sets)
      → Applies row sets all_day event (apply_sets J S return_chunk row sets all_day event)
  unfolding apply_sets
  apply_sets_lem row [] all_day event object h = (event, refl, (object, tt, λ k _. refl))
  apply_sets_lem row ((name, c) ∷ sets) all_day event object h =
      let (e1, same1, (_, object1), others1) =
        apply_column_lem J L S event name (row c) all_day true (inl object) (λ _. object) in
      let (e2, same2, (object2, shows2, others2)) =
        apply_sets_lem row sets all_day e1 (object1 object) (tail h) in
      (
        e2,
        rw (one e1 same1 h, same2),
        (
          object2,
          (
            λ key listed apart later.
                subst (Held J S name (row c) all_day) (sym (others2 key later)) (
                  apply_column-Held J S L event object name key (row c) all_day e1
                    (is_writable true name) listed apart same1),
            shows2,
          ),
          λ k (h, hs). others2 k hs ∙ others1 k h,
        ),
      )
    where
      tail :
          (return_chunk ≡ true)
            ⊎ All (λ name. is_writable true name ≡ true) (set_names ((name, c) ∷ sets))
          → (return_chunk ≡ true) ⊎ All (λ name. is_writable true name ≡ true) (set_names sets)
      tail (inl returning) = inl returning
      tail (inr (_, hs)) = inr hs

      one :
          (e : J.Json)
          → apply_column J S event name (row c) all_day true ≡ ok (e, is_writable true name)
          → (return_chunk ≡ true)
            ⊎ All (λ name. is_writable true name ≡ true) (set_names ((name, c) ∷ sets))
          → apply_one J S return_chunk event name (row c) all_day ≡ ok e
      one e same (inl returning) = unfold apply_one in rw (returning, same, apply_one)
      one e same (inr (h, _)) = elim (Bool-cases return_chunk) [
        | inl returning ↦ unfold apply_one in rw (returning, same, apply_one)
        | inr plain ↦ unfold apply_one apply_set in rw (plain, same, h, apply_one)
      ]

  -- A plain UPDATE with a column that may not be written throws for the first such column, whatever
  -- the values are.
  pub apply_sets_read_only :
      (row : Row S) (sets : Sets) (all_day : Bool) (event : J.Json) (name : String)
      → J.is_object event ≡ true
      → return_chunk ≡ false
      → first_read_only sets ≡ some name
      → apply_sets J S return_chunk row sets all_day event ≡ throw (read_only_error name)
  unfolding apply_sets
  apply_sets_read_only row [] all_day event name object plain h = absurd cc
  apply_sets_read_only row ((n, c) ∷ sets) all_day event name object plain h =
      let (e1, same1, (_, object1), others1) =
        apply_column_lem J L S event n (row c) all_day true (inl object) (λ _. object) in
      elim (Bool-cases (is_writable true n)) [
        | inl here ↦
            rw
              (let e : apply_one J S return_chunk event n (row c) all_day ≡ ok e1 =
                  unfold apply_one apply_set in rw (plain, same1, here, apply_one) in
                e)
              (apply_sets_read_only row sets all_day e1 name (object1 object) plain (rw here at h))
        | inr here ↦
            let e : some n ≡ some name = rw here at h in
            let e' : n ≡ name = some-injective n name e in
            rw (
              let e : apply_one J S return_chunk event n (row c) all_day
                      ≡ throw (read_only_error n) =
                    unfold apply_one apply_set in rw (plain, same1, here, apply_one) in
                  e,
              e',
            )
      ]
