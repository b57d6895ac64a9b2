-- ===== src/Catalog/Attach/Window.antt =====
-- What the options of ATTACH mean for an unbounded scan.
use duckdb_google_calendar.Common.{
  String, Option, none, some, Option-cases, ◌≡◌, refl, ◌∙◌, subst, ◌⊎◌, inl, inr, string_eq,
}
use duckdb_google_calendar.Common.Except.{Exception, Result, ok, throw, bind, Result-cases}
use duckdb_google_calendar.Common.Int.{ℤ, ◌+ℤ◌, ◌-ℤ◌, wrap, limit64}
use duckdb_google_calendar.Sql.{SqlLib}
use duckdb_google_calendar.Scan.Filter.{BindData, no_bounds}
use duckdb_google_calendar.Scan.Init.{
  Interval, DefaultWindow, half, default_bounds, effective_bounds, unbounded_scan,
}
use duckdb_google_calendar.Scan.Init.Query.{IsSpan}
use duckdb_google_calendar.Catalog.Attach.{
  negate, attach_window, to_ts, to_iv, no_window, static_window, dynamic_window,
}

module _ (S : SqlLib) (cast_interval : S.Value → Option Interval)
    (add_interval : ℤ → Interval → Result ℤ) (get_micro : Interval → Result ℤ) where
  -- An option is the instant.
  abbrev pub IsInstant : S.Value → ℤ → Type 0
  IsInstant v t = (u : S.Value) × (S.cast_timestamp_tz v ≡ some u) × (S.get_timestamp_tz u ≡ t)

  -- A scan is bounded by the two ends.
  abbrev pub Spans : ℤ → ℤ → Result BindData → Type 0
  Spans lo hi r = (b : BindData) × (r ≡ ok b) × IsSpan S lo hi b

  -- The window for each choice of options: none, the length around now, the two ends, and one end
  -- with the other at the length from it. The other choices are not accepted.
  abbrev pub Windowed :
      Option S.Value → Option S.Value → Option S.Value → ℤ → Result BindData → Type 0
  Windowed none none none now r = r ≡ throw unbounded_scan
  Windowed none none (some w) now r =
      (length : Interval) × (cast_interval w ≡ some length)
      × (((m : ℤ) × (get_micro length ≡ ok m)
            × Spans (wrap limit64 (now -ℤ half m)) (wrap limit64 (now +ℤ half m)) r)
          ⊎ ((e : Exception) × (get_micro length ≡ throw e) × (r ≡ throw e)))
  Windowed (some s) (some e) none now r =
      (start : ℤ) × (stop : ℤ) × IsInstant s start × IsInstant e stop × Spans start stop r
  Windowed (some s) none (some w) now r =
      (start : ℤ) × (length : Interval) × (stop : ℤ) × IsInstant s start
      × (cast_interval w ≡ some length)
      × (add_interval start length ≡ ok stop)
      × Spans start stop r
  Windowed none (some e) (some w) now r =
      (stop : ℤ) × (length : Interval) × (start : ℤ) × IsInstant e stop
      × (cast_interval w ≡ some length)
      × (add_interval stop (negate length) ≡ ok start)
      × Spans start stop r
  Windowed _ _ _ now r = ⊥

  abbrev scan_of : DefaultWindow → ℤ → Result BindData
  scan_of window now = effective_bounds S get_micro window now no_bounds

  -- What holds of a scan, where the options are accepted.
  abbrev Accepted : (Result BindData → Type 0) → ℤ → Result DefaultWindow → Type 0
  Accepted P now (ok window) = P (scan_of window now)
  Accepted P now (throw e) = Unit

  bind-Accepted :
      {A : Type 0} (P : Result BindData → Type 0) (now : ℤ) (r : Result A)
      (f : A → Result DefaultWindow)
      → ((a : A) → r ≡ ok a → Accepted P now (f a))
      → Accepted P now (bind r f)
  bind-Accepted P now (ok a) f h = h a refl
  bind-Accepted P now (throw e) f h = tt

  to_ts-IsInstant :
      (v : S.Value) (name : String) (t : ℤ)
      → to_ts S cast_interval add_interval v name ≡ ok t
      → IsInstant v t
  unfolding to_ts
  to_ts-IsInstant v name t h = elim (Option-cases (S.cast_timestamp_tz v)) [
    | inl no_time ↦ absurd (cc (rw (no_time, to_ts) at h))
    | inr (u, time) ↦
        let same : ok (S.get_timestamp_tz u) ≡ ok t = rw (time, to_ts) at h in (u, time, cc)
  ]

  to_iv-cast :
      (v : S.Value) (i : Interval)
      → to_iv S cast_interval add_interval v ≡ ok i
      → cast_interval v ≡ some i
  unfolding to_iv
  to_iv-cast v i h = elim (Option-cases (cast_interval v)) [
    | inl no_interval ↦ absurd (cc (rw (no_interval, to_iv) at h))
    | inr (j, interval) ↦ let same : ok j ≡ ok i = rw (interval, to_iv) at h in interval ∙ cc
  ]

  static-Spans : (start stop now : ℤ) → Spans start stop (scan_of (static_window start stop) now)
  unfolding effective_bounds default_bounds
  static-Spans start stop now = (_, refl, (refl, refl, refl, refl))

  dynamic-Spans :
      (length : Interval) (now m : ℤ)
      → get_micro length ≡ ok m
      → Spans
          (wrap limit64 (now -ℤ half m))
          (wrap limit64 (now +ℤ half m))
          (scan_of (dynamic_window length) now)
  unfolding effective_bounds default_bounds
  dynamic-Spans length now m micros = rw micros (_, refl, (refl, refl, refl, refl))

  dynamic_too_long :
      (length : Interval) (now : ℤ) (e : Exception)
      → get_micro length ≡ throw e
      → scan_of (dynamic_window length) now ≡ throw e
  unfolding effective_bounds default_bounds
  dynamic_too_long length now e long = rw long refl

  dynamic_cases :
      (length : Interval) (now : ℤ)
      → ((m : ℤ) × (get_micro length ≡ ok m)
          × Spans
              (wrap limit64 (now -ℤ half m))
              (wrap limit64 (now +ℤ half m))
              (scan_of (dynamic_window length) now))
        ⊎ ((e : Exception) × (get_micro length ≡ throw e)
            × (scan_of (dynamic_window length) now ≡ throw e))
  dynamic_cases length now = elim (Result-cases (get_micro length)) [
    | inl (e, long) ↦ inr (e, long, dynamic_too_long length now e long)
    | inr (m, micros) ↦ inl (m, micros, dynamic-Spans length now m micros)
  ]

  no_window_refused : (now : ℤ) → scan_of no_window now ≡ throw unbounded_scan
  unfolding effective_bounds
  no_window_refused now = refl

  attach_window-Accepted :
      (s e w : Option S.Value) (now : ℤ)
      → Accepted (Windowed s e w now) now (attach_window S cast_interval add_interval s e w)
  unfolding attach_window
  attach_window-Accepted none none none now = no_window_refused now
  attach_window-Accepted (some s) (some e) (some w) now = tt
  attach_window-Accepted none none (some w) now =
      bind-Accepted (Windowed none none (some w) now) now (to_iv S cast_interval add_interval w) _
        (λ length h. (length, to_iv-cast w length h, dynamic_cases length now))
  attach_window-Accepted (some s) (some e) none now =
      let P = Windowed (some s) (some e) none now in
      bind-Accepted P now (to_ts S cast_interval add_interval s "default_window_start") _
        λ start hs.
          bind-Accepted P now (to_ts S cast_interval add_interval e "default_window_end") _
            λ stop he. (
              start,
              stop,
              to_ts-IsInstant s "default_window_start" start hs,
              to_ts-IsInstant e "default_window_end" stop he,
              static-Spans start stop now,
            )
  attach_window-Accepted (some s) none (some w) now =
      let P = Windowed (some s) none (some w) now in
      bind-Accepted P now (to_ts S cast_interval add_interval s "default_window_start") _
        λ start hs. bind-Accepted P now (to_iv S cast_interval add_interval w) _ λ length hw.
          bind-Accepted P now (add_interval start length) _ λ stop sum. (
            start,
            length,
            stop,
            to_ts-IsInstant s "default_window_start" start hs,
            to_iv-cast w length hw,
            sum,
            static-Spans start stop now,
          )
  attach_window-Accepted none (some e) (some w) now =
      let P = Windowed none (some e) (some w) now in
      bind-Accepted P now (to_ts S cast_interval add_interval e "default_window_end") _ λ stop he.
        bind-Accepted P now (to_iv S cast_interval add_interval w) _ λ length hw.
          bind-Accepted P now (add_interval stop (negate length)) _ λ start sum. (
            stop,
            length,
            start,
            to_ts-IsInstant e "default_window_end" stop he,
            to_iv-cast w length hw,
            sum,
            static-Spans start stop now,
          )
  attach_window-Accepted (some s) none none now = tt
  attach_window-Accepted none (some e) none now = tt

  -- Where the window options of ATTACH are accepted, a scan with no bound of its own is refused if
  -- none was given, and else reaches, with a day added on each side: with the length alone, half
  -- of its microseconds to each side of now, or the engine's exception where they do not fit; with
  -- start and end, from one to the other; with start and length, from start to their sum; with end
  -- and length, to the end from its sum with the negated length.
  pub effective_bounds-attach_window :
      (s e w : Option S.Value) (window : DefaultWindow) (now : ℤ)
      → attach_window S cast_interval add_interval s e w ≡ ok window
      → Windowed s e w now (effective_bounds S get_micro window now no_bounds)
  effective_bounds-attach_window s e w window now h =
      subst (Accepted (Windowed s e w now) now) h (attach_window-Accepted s e w now)
