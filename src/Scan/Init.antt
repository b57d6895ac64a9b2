-- ===== src/Scan/Init.antt =====
-- `CalendarScanInitGlobal` of src/storage/calendar_scan.cpp: the window of a scan, and its query.
pub mod Query
use duckdb_google_calendar.Common.{
  ℕ, suc, ◌-◌, ◌/◌, List, [], ◌∷◌, Bool, true, false, not, ◌&&◌, Bytes, codes, if◌then◌else◌,
}
use duckdb_google_calendar.Common.Except.{Result, ok, throw, Exception, binder, bind}
use duckdb_google_calendar.Common.Int.{ℤ, pos, negsuc, sub_ℕ, ◌+ℤ◌, ◌-ℤ◌, wrap, limit64}
use duckdb_google_calendar.Sql.{SqlLib}
use duckdb_google_calendar.Util.Query.{QueryBuilder, add, build}
use duckdb_google_calendar.Scan.Filter.{BindData, format_with_buffer, one_day_micros}

pub record Interval : Type 0 where
  pub months : ℤ
  pub days : ℤ
  pub micros : ℤ

-- The default window of `CalendarCatalog`.
pub record DefaultWindow : Type 0 where
  pub has_default_window : Bool
  pub default_is_dynamic : Bool
  pub default_window_length : Interval
  pub default_window_start : ℤ
  pub default_window_end : ℤ

abbrev pub unbounded_scan : Exception
unbounded_scan =
    binder
      "google_calendar scan requires an explicit time bound on \"start\" (e.g. WHERE start >= TIMESTAMPTZ '2026-06-01 00:00:00+00' AND start < TIMESTAMPTZ '2026-07-01 00:00:00+00'), or ATTACH with default_window_length / default_window_start / default_window_end to enable a default window"
      []

-- Division by 2 cuts toward zero.
unfoldable pub half : ℤ → ℤ
half (pos n) = pos (n / 2)
half (negsuc n) = sub_ℕ 0 (suc n / 2)

-- `get_micro` is `Interval::GetMicro`, which throws where the microseconds do not fit. The sums wrap
-- around.
unfoldable pub default_bounds : (Interval → Result ℤ) → DefaultWindow → ℤ → Result (ℤ × ℤ)
unfolding half
default_bounds get_micro cat now =
    if cat.default_is_dynamic
    then bind (get_micro cat.default_window_length)
        (λ m. ok (wrap limit64 (now -ℤ half m), wrap limit64 (now +ℤ half m)))
    else ok (cat.default_window_start, cat.default_window_end)

module _ (S : SqlLib) (get_micro : Interval → Result ℤ) where
  -- A window as bounds.
  abbrev pub window_bounds : ℤ → ℤ → BindData
  window_bounds lo hi = record {
    time_min = format_with_buffer S (S.timestamp_tz lo) (negsuc (one_day_micros - 1));
    time_max = format_with_buffer S (S.timestamp_tz hi) (pos one_day_micros);
    has_lower = true;
    has_upper = true;
  }

  -- The filter's bounds, or else those of the default window.
  unfoldable pub effective_bounds : DefaultWindow → ℤ → BindData → Result BindData
  unfolding default_bounds
  effective_bounds cat now b =
      if not b.has_lower && not b.has_upper
      then (if not cat.has_default_window
          then throw unbounded_scan
          else bind (default_bounds get_micro cat now) (λ (lo, hi). ok (window_bounds lo hi)))
      else ok b

  unfoldable pub scan_params : BindData → QueryBuilder
  unfolding add
  scan_params b =
      let qb =
        add
          (add (add [] (codes "singleEvents") (codes "true")) (codes "orderBy") (codes "startTime"))
          (codes "maxResults") (codes "2500") in
      let qb' = if b.has_lower then add qb (codes "timeMin") b.time_min else qb in
      if b.has_upper then add qb' (codes "timeMax") b.time_max else qb'

  unfoldable pub base_query : DefaultWindow → ℤ → BindData → Result Bytes
  unfolding effective_bounds scan_params
  base_query cat now b = bind (effective_bounds cat now b) (λ b'. ok (build (scan_params b')))
