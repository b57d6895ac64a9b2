-- ===== src/Mapping/Ids.antt =====
-- The id that an INSERT gives an event: the text of the last column `event_id` that is not NULL.
use mathlib.Core.Option
use duckdb_google_calendar.Common.{
  ℕ, ◌+◌, String, Bytes, Bool, true, false, not, ◌&&◌, List, [], ◌∷◌, Option, none, some, inl, inr,
  ◌≡◌, refl, ◌∙◌, ◌==◌, string_eq, if◌then◌else◌, Bool-cases,
}
use duckdb_google_calendar.Common.Except.{ok}
use duckdb_google_calendar.Json.{JsonLib, IsLawful}
use duckdb_google_calendar.Json.Laws.{IsBody, put-Sets}
use duckdb_google_calendar.Sql.{SqlLib}
use duckdb_google_calendar.Mapping.Write.{apply_column, apply_row, row_all_day, row_to_event}
use duckdb_google_calendar.Mapping.Write.Table.{touches-id}
use duckdb_google_calendar.Mapping.Write.Laws.{apply_column_lem}

module _ (S : SqlLib) (cell : ℕ → S.Value) where
  abbrev pub client_id : ℕ → List String → Option Bytes → Option Bytes
  client_id c [] id = id
  client_id c (name ∷ names) id =
      client_id (c + 1) names
        (if name == "event_id" && not (S.is_null (cell c)) then some (S.to_string (cell c)) else id)

  module _ (J : JsonLib) (L : IsLawful J) where
    abbrev Shows : J.Json → Option Bytes → Type 0
    Shows event id = J.member event "id" ≡ Option.map J.from_string id

    column_id :
        (c : ℕ) (name : String) (all_day : Bool) (event : J.Json) (id : Option Bytes)
        → IsBody J event
        → Shows event id
        → (event' : J.Json) × (writable : Bool) × (apply_column J S event name
              (cell c)
              all_day
              false
            ≡ ok (event', writable))
          × IsBody J event'
          × Shows event' (
              if name == "event_id" && not (S.is_null (cell c))
              then some (S.to_string (cell c))
              else id)
    unfolding apply_column
    column_id c name all_day event id body shows = elim (Bool-cases (name == "event_id")) [
      | inl here ↦ elim (Bool-cases (S.is_null (cell c))) [
        | inl null ↦ (event, true, rw (here, null, apply_column), body, rw (here, null) shows)
        | inr there ↦
            let (event', put, object, members) =
              put-Sets J L event "id" (J.from_string (S.to_string (cell c))) body in
            (
              event',
              true,
              rw (here, there, put, apply_column),
              inl object,
              rw (here, there) (members "id"),
            )
      ]
      | inr other ↦
          let (event', same, (body', _), others) =
            apply_column_lem J L S event name (cell c) all_day false body (λ h. absurd (cc)) in
          (event', _, same, body', rw other (others "id" (touches-id name other) ∙ shows))
    ]

    row_id :
        (c : ℕ) (names : List String) (all_day : Bool) (event : J.Json) (id : Option Bytes)
        → IsBody J event
        → Shows event id
        → (event' : J.Json) × (apply_row J S cell c names all_day event ≡ ok event')
          × IsBody J event'
          × Shows event' (client_id c names id)
    unfolding apply_row
    row_id c [] all_day event id body shows = (event, refl, body, shows)
    row_id c (name ∷ names) all_day event id body shows =
        let (e1, w, same, body1, shows1) = column_id c name all_day event id body shows in
        let (e2, rest, body2, shows2) =
          row_id (c + 1) names all_day e1
            (if name == "event_id" && not (S.is_null (cell c))
              then some (S.to_string (cell c))
              else id)
            body1 shows1 in
        (e2, rw same rest, body2, shows2)

    -- The event of a row, and its id.
    pub row_to_event-client_id :
        (names : List String)
        → (event : J.Json) × (row_to_event J S cell names ≡ ok event)
          × IsBody J event
          × Shows event (client_id 0 names none)
    unfolding row_to_event
    row_to_event-client_id names =
        row_id 0 names (row_all_day J S cell 0 names) J.null none (inr L.null_is_null)
          (L.member-null "id")
