-- ===== src/Scan/Init/Query.antt =====
-- The query of a scan always bounds the time.
use duckdb_google_calendar.Common.{
  ◌-◌, [], ◌∷◌, ◌++◌, some, Bool, true, false, not, ◌&&◌, ◌||◌, Bytes, IsBytes, codes,
  if◌then◌else◌, ◌≡◌, refl, ◌⊎◌, inl, inr, arith, Bool-cases, all_bytes-IsBytes, All-append,
}
use duckdb_google_calendar.Common.Except.{Exception, Result, ok, throw, Result-cases}
use duckdb_google_calendar.Common.Int.{ℤ, pos, negsuc, ◌+ℤ◌, wrap, limit64}
use duckdb_google_calendar.Sql.{SqlLib}
use duckdb_google_calendar.Util.Query.{QueryBuilder, build}
use duckdb_google_calendar.Util.Query.Parse.{IsParams, parse_query, parse_query-build}
use duckdb_google_calendar.Mapping.Times.{spaces_to_t}
use duckdb_google_calendar.Scan.Filter.{BindData, format_with_buffer, one_day_micros}
use duckdb_google_calendar.Scan.Init.{
  unbounded_scan, Interval, DefaultWindow, default_bounds, window_bounds, effective_bounds,
  scan_params, base_query,
}

-- The parameters of a request for a window.
abbrev pub window_params : BindData → QueryBuilder
window_params b =
    (codes "singleEvents", codes "true")
    ∷ (codes "orderBy", codes "startTime")
    ∷ (codes "maxResults", codes "2500")
    ∷ ((if b.has_lower then (codes "timeMin", b.time_min) ∷ [] else [])
        ++ (if b.has_upper then (codes "timeMax", b.time_max) ∷ [] else []))

-- The bounds are the texts of the two ends, with a day added outwards.
abbrev pub IsSpan : SqlLib → ℤ → ℤ → BindData → Type 0
IsSpan S lo hi b =
    (b.has_lower ≡ true)
    × (b.has_upper ≡ true)
    × (b.time_min ≡ format_with_buffer S (S.timestamp_tz lo) (negsuc (one_day_micros - 1)))
    × (b.time_max ≡ format_with_buffer S (S.timestamp_tz hi) (pos one_day_micros))

module _ (S : SqlLib) (get_micro : Interval → Result ℤ) (cat : DefaultWindow) (now : ℤ)
    (b : BindData) where
  scan_params_lem : (b : BindData) → scan_params S get_micro b ≡ window_params b
  unfolding scan_params
  scan_params_lem b = elim (Bool-cases b.has_lower) [
    | inl low ↦ elim (Bool-cases b.has_upper) [
      | inl high ↦ rw (low, high)
      | inr high ↦ rw (low, high)
    ]
    | inr low ↦ elim (Bool-cases b.has_upper) [
      | inl high ↦ rw (low, high)
      | inr high ↦ rw (low, high)
    ]
  ]

  bound_IsParams :
      (set : Bool) (key value : Bytes)
      → IsBytes key
      → IsBytes value
      → IsParams (if set then (key, value) ∷ [] else [])
  bound_IsParams true key value hk hv = ((hk, hv), tt)
  bound_IsParams false key value hk hv = tt

  window_IsParams :
      (b : BindData) → IsBytes b.time_min → IsBytes b.time_max → IsParams (window_params b)
  window_IsParams b lo hi = (
    (all_bytes-IsBytes (codes "singleEvents") refl, all_bytes-IsBytes (codes "true") refl),
    (
      (all_bytes-IsBytes (codes "orderBy") refl, all_bytes-IsBytes (codes "startTime") refl),
      (
        (all_bytes-IsBytes (codes "maxResults") refl, all_bytes-IsBytes (codes "2500") refl),
        All-append _ (if b.has_lower then (codes "timeMin", b.time_min) ∷ [] else []) _
            (bound_IsParams b.has_lower (codes "timeMin") b.time_min
              (all_bytes-IsBytes (codes "timeMin") refl) lo)
            (bound_IsParams b.has_upper (codes "timeMax") b.time_max
              (all_bytes-IsBytes (codes "timeMax") refl) hi),
      ),
    ),
  )

  abbrev pub Refused : Type 0
  Refused =
      (base_query S get_micro cat now b ≡ throw unbounded_scan)
      × (b.has_lower ≡ false)
      × (b.has_upper ≡ false)
      × (cat.has_default_window ≡ false)

  -- `Interval::GetMicro` throws for the length of the window.
  abbrev pub TooLong : Type 0
  TooLong =
      (e : Exception) × (base_query S get_micro cat now b ≡ throw e)
      × ((b.has_lower || b.has_upper) ≡ false)
      × (cat.has_default_window ≡ true)
      × (default_bounds get_micro cat now ≡ throw e)

  -- The filters' bounds as they are; without one, those of the default window, with a day added on
  -- each side.
  abbrev pub Source : BindData → Type 0
  Source b' =
      (((b.has_lower || b.has_upper) ≡ true) × (b' ≡ b))
      ⊎ (((b.has_lower || b.has_upper) ≡ false)
          × (cat.has_default_window ≡ true)
          × (lo : ℤ) × (hi : ℤ) × (default_bounds get_micro cat now ≡ ok (lo, hi))
          × IsSpan S lo hi b')

  abbrev pub Bounded : Type 0
  Bounded =
      (b' : BindData) × (query : Bytes) × (base_query S get_micro cat now b ≡ ok query)
      × Source b'
      × ((b'.has_lower || b'.has_upper) ≡ true)
      × (parse_query query ≡ some (window_params b'))

  module _ (printed : (t : ℤ) → IsBytes (S.timestamp_to_string t)) (lo : IsBytes b.time_min)
      (hi : IsBytes b.time_max) where
    spaces_IsBytes : (s : Bytes) → IsBytes s → IsBytes (spaces_to_t s)
    spaces_IsBytes [] _ = tt
    spaces_IsBytes (c ∷ s) (h, hs) = (ground arith, spaces_IsBytes s hs)

    format_IsBytes : (v : S.Value) (d : ℤ) → IsBytes (format_with_buffer S v d)
    unfolding format_with_buffer
    format_IsBytes v d =
        All-append _
          (spaces_to_t (S.timestamp_to_string (wrap limit64 (S.get_timestamp_tz v +ℤ d)))) _
          (spaces_IsBytes _ (printed (wrap limit64 (S.get_timestamp_tz v +ℤ d))))
          (all_bytes-IsBytes (codes "Z") refl)

    built :
        (b' : BindData)
        → effective_bounds S get_micro cat now b ≡ ok b'
        → IsBytes b'.time_min
        → IsBytes b'.time_max
        → Source b'
        → ((b'.has_lower || b'.has_upper) ≡ true)
        → Bounded
    unfolding base_query
    built b' e lo hi source bounded = (
      b',
      build (scan_params S get_micro b'),
      rw (e, base_query),
      source,
      bounded,
      rw (scan_params_lem b') (parse_query-build (window_params b') (window_IsParams b' lo hi)),
    )

    windowed :
        (b.has_lower || b.has_upper) ≡ false → cat.has_default_window ≡ true → TooLong ⊎ Bounded
    windowed free window = elim (Result-cases (default_bounds get_micro cat now)) [
      | inl (e, long) ↦ inl (
        e,
        unfold base_query effective_bounds in
            rw ((none_set free).0, (none_set free).1, window, long, base_query),
        free,
        window,
        long,
      )
      | inr ((lower, upper), span) ↦ inr (
          built (window_bounds S get_micro lower upper)
            (unfold effective_bounds in
              rw ((none_set free).0, (none_set free).1, window, span, effective_bounds))
            (format_IsBytes _ _) (format_IsBytes _ _)
            (inr (free, window, lower, upper, span, (refl, refl, refl, refl))) refl)
    ]
      where
        none_set :
            (b.has_lower || b.has_upper) ≡ false → (b.has_lower ≡ false) × (b.has_upper ≡ false)
        none_set h = (ground arith, ground arith)

    -- If the engine prints times and the filters' bounds as bytes, a scan has one of three
    -- outcomes. It has no bound and no default window, and is refused; or it has no bound, and the
    -- length of its default window has no microseconds, and it throws what the engine threw; or
    -- its query parses to exactly the parameters for single events in the order of their start,
    -- 2500 to a page, with `timeMin` and `timeMax` as far as they are set: those of the filters if
    -- there is one, and else the two ends of the default window, a day further out.
    pub base_query_lem : Refused ⊎ TooLong ⊎ Bounded
    base_query_lem = elim (Bool-cases (b.has_lower || b.has_upper)) [
      | inl bound ↦ inr (
          inr (
            built b (unfold effective_bounds in rw (both_false bound, effective_bounds)) lo hi
              (inl (bound, refl)) bound))
      | inr free ↦ elim (Bool-cases cat.has_default_window) [
        | inl window ↦ inr (windowed free window)
        | inr no_window ↦ inl (
          (unfold base_query effective_bounds in
              rw ((none_set free).0, (none_set free).1, no_window, base_query)),
          (none_set free).0,
          (none_set free).1,
          no_window,
        )
      ]
    ]
      where
        both_false :
            (b.has_lower || b.has_upper) ≡ true → (not b.has_lower && not b.has_upper) ≡ false
        both_false h = ground arith

        none_set :
            (b.has_lower || b.has_upper) ≡ false → (b.has_lower ≡ false) × (b.has_upper ≡ false)
        none_set h = (ground arith, ground arith)
