-- ===== src/Mapping/Rows.antt =====
-- `RowToEvent` on a whole row.
use duckdb_google_calendar.Common.{
  ℕ, ◌+◌, String, Bool, true, false, List, [], ◌∷◌, All, none, inr, ◌≡◌, refl, ◌∙◌,
}
use duckdb_google_calendar.Common.Except.{ok}
use duckdb_google_calendar.Json.{JsonLib, IsLawful}
use duckdb_google_calendar.Json.Laws.{IsBody}
use duckdb_google_calendar.Sql.{SqlLib}
use duckdb_google_calendar.Mapping.Write.{apply_row, row_all_day, row_to_event}
use duckdb_google_calendar.Mapping.Write.Table.{touches}
use duckdb_google_calendar.Mapping.Write.Laws.{apply_column_lem}

module _ (J : JsonLib) (L : IsLawful J) (S : SqlLib) where
  apply_row_lem :
      (cell : ℕ → S.Value) (c : ℕ) (names : List String) (all_day : Bool) (event : J.Json)
      → IsBody J event
      → (event' : J.Json) × (apply_row J S cell c names all_day event ≡ ok event')
        × IsBody J event'
        × ((k : String)
            → All (λ name. touches name k ≡ false) names
            → J.member event' k ≡ J.member event k)
  unfolding apply_row
  apply_row_lem cell c [] all_day event body = (event, refl, body, λ k h. refl)
  apply_row_lem cell c (name ∷ names) all_day event body =
      let (e1, same1, (body1, _), others1) =
        apply_column_lem J L S event name (cell c) all_day false body
          (λ h. absurd (false-ne-true h)) in
      let (e2, same2, body2, others2) = apply_row_lem cell (c + 1) names all_day e1 body1 in
      (e2, rw (same1, same2), body2, λ k (h, hs). others2 k hs ∙ others1 k h)
    where
      false-ne-true : false ≡ true → ⊥
      false-ne-true h = cc

  -- Every row of an INSERT is mapped to an event body without an exception, and the body has no
  -- field but those that the writable columns of the table write.
  pub row_to_event_lem :
      (cell : ℕ → S.Value) (names : List String)
      → (event : J.Json) × (row_to_event J S cell names ≡ ok event)
        × IsBody J event
        × ((k : String) → All (λ name. touches name k ≡ false) names → J.member event k ≡ none)
  unfolding row_to_event
  row_to_event_lem cell names =
      let (event, e, body, others) =
        apply_row_lem cell 0 names (row_all_day J S cell 0 names) J.null (inr L.null_is_null) in
      (event, e, body, λ k h. others k h ∙ L.member-null k)
