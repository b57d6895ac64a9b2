-- ===== src/Scan/Pages/Laws.antt =====
-- A scan over the pages that the server gives.
use duckdb_google_calendar.Common.{
  ℕ, zero, suc, ◌+◌, ◌<◌, ◌≤◌, List, [], ◌∷◌, ◌++◌, map, Option, none, some, true, false, String,
  Bytes, string_eq, is_empty, get_elem?, ◌≡◌, refl, ◌∙◌, ◌⊎◌, inl, inr, arith, length, take, drop,
  length-drop, get_elem?_of_drop, drop_of_drop,
}
use duckdb_google_calendar.Common.Except.{Result, ok}
use duckdb_google_calendar.Json.{JsonLib}
use duckdb_google_calendar.Sql.{SqlLib}
use duckdb_google_calendar.Resources.Base.{Client}
use duckdb_google_calendar.Resources.Events.{list_events}
use duckdb_google_calendar.Scan.Pages.{
  ScanState, ColumnId, page_token, page_items, page_query, fetch_page, scan_row, scan_loop,
  drain_scan,
}

get_elem?_past : {A : Type 0} (xs : List A) (n : ℕ) → drop n xs ≡ [] → get_elem? xs n ≡ none
get_elem?_past [] n h = ground arith
get_elem?_past (x ∷ xs) zero h = absurd cc
get_elem?_past (x ∷ xs) (suc n) h = get_elem?_past xs n h

map_parts :
    {A B : Type 0} (f : A → B) (n : ℕ) (xs : List A)
    → map f (take n xs) ++ map f (drop n xs) ≡ map f xs
map_parts f zero xs = refl
map_parts f (suc n) [] = refl
map_parts f (suc n) (x ∷ xs) = rw (map_parts f n xs)

abbrev pub all_items : {A : Type 0} → List (List A) → List A
all_items [] = []
all_items (page ∷ pages) = page ++ all_items pages

module _ (J : JsonLib) {W : Type 0} (client : Client W) (calendar_id base_query : Bytes) where
  -- The server answers with these pages, one for each token that it gives, from a token on.
  abbrev pub Serves : List (List J.Json) → Bytes → W → Type 0
  Serves [] token w = is_empty token ≡ true
  Serves (page ∷ pages) token w =
      (is_empty token ≡ false)
      × ((response : J.Json) × (token' : Bytes) × (w' : W) × (list_events J client calendar_id
              (page_query J base_query token) w
            ≡ (ok response, w'))
          × (page_token J response ≡ ok token')
          × (page_items J response ≡ page)
          × Serves pages token' w')

  -- What is left for a state: the items of its page, and those of the pages to come.
  abbrev pub Left : ScanState J.Json → W → List (List J.Json) → List J.Json → Type 0
  Left state w pages xs =
      ((state.finished ≡ true) × (xs ≡ []))
      ⊎ ((state.finished ≡ false)
          × Serves pages state.next_page_token w
          × (xs ≡ drop state.item_index state.items ++ all_items pages))

  module _ (S : SqlLib) (names : List String) (column_ids : List ColumnId) where
    abbrev pub row : J.Json → List S.Value
    row = scan_row J client calendar_id base_query S names column_ids

    abbrev pub Emits :
        List J.Json
        → List J.Json
        → ℕ
        → Result (Option (List (List S.Value) × ScanState J.Json)) × W
        → Type 0
    Emits now later limit p =
        (state : ScanState J.Json) × (w : W) × (pages : List (List J.Json)) × (p
          ≡ (ok (some (map row now, state)), w))
        × Left state w pages later
        × (length pages ≤ limit)

    abbrev loop :
        ℕ → ℕ → ScanState J.Json → W → Result (Option (List (List S.Value) × ScanState J.Json)) × W
    loop = scan_loop J client calendar_id base_query S names column_ids

    fetch_lem :
        (state : ScanState J.Json) (page : List J.Json) (response : J.Json) (token : Bytes)
        (w w1 : W)
        → list_events J client calendar_id (page_query J base_query state.next_page_token) w
          ≡ (ok response, w1)
        → page_token J response ≡ ok token
        → page_items J response ≡ page
        → fetch_page J client calendar_id base_query state w ≡ (
          ok (record {
            items = page;
            item_index = 0;
            next_page_token = token;
            finished = state.finished;
          }),
          w1,
        )
    unfolding fetch_page
    fetch_lem state page response token w w1 got next items = rw (got, next, items, fetch_page)

    loop_fetch :
        (fuel room : ℕ) (state next : ScanState J.Json) (w w1 : W)
        → state.finished ≡ false
        → get_elem? state.items state.item_index ≡ none
        → is_empty state.next_page_token ≡ false
        → fetch_page J client calendar_id base_query state w ≡ (ok next, w1)
        → loop (suc fuel) (suc room) state w ≡ loop fuel (suc room) next w1
    unfolding scan_loop
    loop_fetch fuel room state next w w1 going past more fetched =
        rw (going, past, more, fetched, scan_loop)

    loop_lem :
        (fuel room : ℕ) (state : ScanState J.Json) (w : W) (pages : List (List J.Json))
        (ys : List J.Json)
        → state.finished ≡ false
        → Serves pages state.next_page_token w
        → drop state.item_index state.items ≡ ys
        → length (ys ++ all_items pages) + length pages < fuel
        → Emits
            (take room (ys ++ all_items pages))
            (drop room (ys ++ all_items pages))
            (length pages)
            (loop fuel room state w)
    unfolding scan_loop
    loop_lem zero room state w pages ys going serves here enough = absurd (omega arith)
    loop_lem (suc fuel) zero state w pages ys going serves here enough =
        (state, w, pages, refl, inr (going, serves, rw here), omega arith)
    loop_lem (suc fuel) (suc room) state w pages (y ∷ ys) going serves here enough =
        let (state', w', pages', e, left, fewer) =
          loop_lem fuel room (record state { item_index = state.item_index + 1 }) w pages ys going
            serves (drop_of_drop state.items state.item_index y ys here) (omega arith) in
        (
          state',
          w',
          pages',
          rw (going, get_elem?_of_drop state.items state.item_index y ys here, e, scan_loop),
          left,
          fewer,
        )
    loop_lem (suc fuel) (suc room) state w [] [] going serves here enough = (
      record state { finished = true },
      w,
      [],
      rw (going, get_elem?_past state.items state.item_index here, serves, scan_loop),
      inl (refl, refl),
      omega arith,
    )
    loop_lem (suc fuel) (suc room) state w (page ∷ pages) [] going
          (more, (response, token, w1, got, next, items, serves)) here enough =
        let (state', w', pages', e, left, fewer) =
          loop_lem fuel (suc room)
            (record {
              items = page;
              item_index = 0;
              next_page_token = token;
              finished = state.finished;
            })
            w1 pages page going serves refl (omega arith) in
        (
          state',
          w',
          pages',
          loop_fetch fuel room state
                (record {
                  items = page;
                  item_index = 0;
                  next_page_token = token;
                  finished = state.finished;
                })
                w w1 going (get_elem?_past state.items state.item_index here) more
                (fetch_lem state page response token w w1 got next items)
              ∙ e,
          left,
          omega arith,
        )

    -- One call of the function.
    call_lem :
        (fuel room : ℕ) (state : ScanState J.Json) (w : W) (pages : List (List J.Json))
        (xs : List J.Json)
        → Left state w pages xs
        → length xs + length pages < fuel
        → Emits
            (take (suc room) xs)
            (drop (suc room) xs)
            (length pages)
            (loop fuel (suc room) state w)
    unfolding scan_loop
    call_lem zero room state w pages xs left enough = absurd (omega arith)
    call_lem (suc fuel) room state w pages xs (inl (done, none_left)) enough =
        rw none_left (state, w, pages, rw (done, scan_loop), inl (done, refl), omega arith)
    call_lem (suc fuel) room state w pages xs (inr (going, serves, e)) enough = rw e (
        loop_lem (suc fuel) (suc room) state w pages (drop state.item_index state.items) going
          serves refl (rw e at enough))

    -- If the server gives a finite chain of pages, the engine's calls of the scan come to an end
    -- and give one row for each item that is left, in the order of the pages: empty pages are
    -- passed over, and the limit of 2048 rows for a chunk loses nothing. As many rounds and calls
    -- are enough as there are items and pages, and one more.
    pub drain_scan_lem :
        (calls fuel : ℕ) (state : ScanState J.Json) (w : W) (pages : List (List J.Json))
        (xs : List J.Json)
        → Left state w pages xs
        → length xs + length pages < fuel
        → length xs < calls
        → (w' : W) × (drain_scan J client calendar_id base_query S names column_ids calls fuel state
              w
            ≡ (ok (some (map row xs)), w'))
    unfolding drain_scan
    drain_scan_lem zero fuel state w pages xs left enough all = absurd (omega arith)
    drain_scan_lem (suc calls) fuel state w pages [] left enough all =
        let (state1, w1, pages1, e, left1, fewer) =
          call_lem fuel 2047 state w pages [] left enough in
        (w1, rw (e, drain_scan))
    drain_scan_lem (suc calls) fuel state w pages (x ∷ xs) left enough all =
        let (state1, w1, pages1, e, left1, fewer) =
          call_lem fuel 2047 state w pages (x ∷ xs) left enough in
        let (w2, rest) =
          drain_scan_lem calls fuel state1 w1 pages1 (drop 2047 xs) left1
            (omega (arith, length-drop 2047 xs)) (omega (arith, length-drop 2047 xs)) in
        (w2, rw (e, rest, map_parts row 2047 xs, drain_scan))
