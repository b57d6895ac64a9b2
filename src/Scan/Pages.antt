-- ===== src/Scan/Pages.antt =====
-- `FetchPage` and `CalendarScan` of src/storage/calendar_scan.cpp
pub mod Laws
use mathlib.Core.Option
use duckdb_google_calendar.Common.{
  ℕ, zero, suc, ◌+◌, List, [], ◌∷◌, ◌++◌, map, Option, none, some, Bool, true, false, not, String,
  Bytes, codes, ◌==◌, string_eq, if◌then◌else◌, is_empty, get_elem?, get_or,
}
use duckdb_google_calendar.Common.Except.{
  Exec, Result, ok, throw, json_error, json_call, bind, pure, lift, ◌>>=◌,
}
use duckdb_google_calendar.Json.{JsonLib}
use duckdb_google_calendar.Sql.{SqlLib}
use duckdb_google_calendar.Util.Query.{url_encode}
use duckdb_google_calendar.Mapping.Emit.{standard_vector_size}
use duckdb_google_calendar.Mapping.Read.{extract_field, json_string}
use duckdb_google_calendar.Resources.Base.{Client}
use duckdb_google_calendar.Resources.Events.{list_events}

-- The part of `CalendarScanGlobalState` that the scan changes.
pub record ScanState (Item : Type 0) : Type 0 where
  pub items : List Item
  pub item_index : ℕ
  pub next_page_token : Bytes
  pub finished : Bool

-- A column of the output: the row id, or a column of the table.
pub data ColumnId : Type 0 where
  row_id : ColumnId
  column_at : ℕ → ColumnId

module _ (J : JsonLib) where
  -- `response.value("nextPageToken", string())`
  unfoldable pub page_token : J.Json → Result Bytes
  page_token response =
      if not (J.is_object response)
      then throw json_error
      else elim (J.member response "nextPageToken") [
        | none ↦ ok []
        | some token ↦ json_call (J.as_string token)
      ]

  unfoldable pub page_items : J.Json → List J.Json
  page_items response = Option.get_or (Option.bind (J.member response "items") J.elements) []

  unfoldable pub page_query : Bytes → Bytes → Bytes
  page_query base_query token =
      if is_empty token then base_query else base_query ++ (codes "&pageToken=" ++ url_encode token)

  module _ {W : Type 0} (client : Client W) (calendar_id base_query : Bytes) where
    unfoldable pub fetch_page : ScanState J.Json → Exec W (ScanState J.Json)
    unfolding page_query page_token page_items
    fetch_page gstate = do
      response ← list_events J client calendar_id (page_query base_query gstate.next_page_token)
      token ← lift (page_token response)
      pure (record {
        items = page_items response;
        item_index = 0;
        next_page_token = token;
        finished = gstate.finished;
      })

    module _ (S : SqlLib) (names : List String) (column_ids : List ColumnId) where
      unfoldable pub scan_cell : J.Json → ColumnId → S.Value
      scan_cell event row_id = json_string J S event "id"
      scan_cell event (column_at cid) =
          let name = get_or names cid "" in
          if name == "calendar_id" then S.varchar calendar_id else extract_field J S event name

      unfoldable pub scan_row : J.Json → List S.Value
      unfolding scan_cell
      scan_row event = map (scan_cell event) column_ids

      -- The loop, with `room` rows left in the chunk. A round appends a row or fetches a page; how many
      -- pages there are is the server's, so `fuel` bounds the rounds, and the result is `none` where it
      -- does not do.
      unfoldable pub scan_loop :
          ℕ → ℕ → ScanState J.Json → Exec W (Option (List (List S.Value) × ScanState J.Json))
      scan_loop zero room gstate = pure none
      scan_loop (suc fuel) zero gstate = pure (some ([], gstate))
      scan_loop (suc fuel) (suc room) gstate =
          if gstate.finished
          then pure (some ([], gstate))
          else elim (get_elem? gstate.items gstate.item_index) [
            | some event ↦
                scan_loop fuel room (record gstate { item_index = gstate.item_index + 1 })
                >>= (λ out. pure (Option.map (λ (rows, state). (scan_row event ∷ rows, state)) out))
            | none ↦
                if is_empty gstate.next_page_token
                then pure (some ([], record gstate { finished = true }))
                else fetch_page gstate >>= (λ state. scan_loop fuel (suc room) state)
          ]

      -- The engine's calls of the function until a chunk comes back empty, at most `calls` of them.
      unfoldable pub drain_scan : ℕ → ℕ → ScanState J.Json → Exec W (Option (List (List S.Value)))
      drain_scan zero fuel gstate = pure none
      drain_scan (suc calls) fuel gstate = scan_loop fuel standard_vector_size gstate >>= (λ out.
          elim out [
            | none ↦ pure none
            | some (rows, state) ↦ elim rows [
              | [] ↦ pure (some [])
              | r ∷ rs ↦
                  drain_scan calls fuel state
                  >>= (λ rest. pure (Option.map (λ more. (r ∷ rs) ++ more) rest))
            ]
          ])
