-- ===== src/Catalog/Attach.antt =====
-- The default window that ATTACH takes from its options
-- (`CalendarAttach` of src/storage/calendar_storage_extension.cpp).
pub mod Window
use duckdb_google_calendar.Common.{
  suc, List, [], ◌∷◌, Bool, true, false, String, codes, Option, none, some,
}
use duckdb_google_calendar.Common.Except.{Result, ok, throw, binder, bind}
use duckdb_google_calendar.Common.Int.{ℤ, pos, ◌-ℤ◌, wrap, limit32, limit64}
use duckdb_google_calendar.Sql.{SqlLib}
use duckdb_google_calendar.Scan.Init.{Interval, DefaultWindow}

-- `{-w.months, -w.days, -w.micros}`, of 32, 32 and 64 bits.
unfoldable pub negate : Interval → Interval
negate w = record {
  months = wrap limit32 (pos 0 -ℤ w.months);
  days = wrap limit32 (pos 0 -ℤ w.days);
  micros = wrap limit64 (pos 0 -ℤ w.micros);
}

-- What the catalog holds before the options are read.
abbrev pub no_window : DefaultWindow
no_window = record {
  has_default_window = false;
  default_is_dynamic = false;
  default_window_length = record { months = pos 0; days = pos 0; micros = pos 0 };
  default_window_start = pos 0;
  default_window_end = pos 0;
}

abbrev pub static_window : ℤ → ℤ → DefaultWindow
static_window start stop = record no_window {
  has_default_window = true;
  default_window_start = start;
  default_window_end = stop;
}

abbrev pub dynamic_window : Interval → DefaultWindow
dynamic_window length = record no_window {
  has_default_window = true;
  default_is_dynamic = true;
  default_window_length = length;
}

-- The engine's intervals: the cast of a value, and `Interval::Add`, which throws where the sum is out
-- of range.
module _ (S : SqlLib) (cast_interval : S.Value → Option Interval)
    (add_interval : ℤ → Interval → Result ℤ) where
  unfoldable pub to_ts : S.Value → String → Result ℤ
  to_ts v name = elim (S.cast_timestamp_tz v) [
    | none ↦ throw (binder "%s must be a TIMESTAMP WITH TIME ZONE" (codes name ∷ []))
    | some t ↦ ok (S.get_timestamp_tz t)
  ]

  unfoldable pub to_iv : S.Value → Result Interval
  to_iv v = elim (cast_interval v) [
    | none ↦ throw (binder "default_window_length must be an INTERVAL (e.g. 'P90D', '3 months')" [])
    | some w ↦ ok w
  ]

  -- The options `default_window_start`, `default_window_end` and `default_window_length`, where they
  -- are given.
  unfoldable pub attach_window :
      Option S.Value → Option S.Value → Option S.Value → Result DefaultWindow
  unfolding to_ts to_iv negate
  attach_window none none none = ok no_window
  attach_window (some s) (some e) (some w) = throw (
      binder
        "specify at most two of default_window_start / default_window_end / default_window_length"
        [])
  attach_window none none (some w) = bind (to_iv w) (λ length. ok (dynamic_window length))
  attach_window (some s) (some e) none =
      bind (to_ts s "default_window_start")
        (λ start. bind (to_ts e "default_window_end") (λ stop. ok (static_window start stop)))
  attach_window (some s) none (some w) = bind (to_ts s "default_window_start") (λ start.
      bind (to_iv w)
        (λ length. bind (add_interval start length) (λ stop. ok (static_window start stop))))
  attach_window none (some e) (some w) = bind (to_ts e "default_window_end") (λ stop.
      bind (to_iv w) (λ length.
        bind (add_interval stop (negate length)) (λ start. ok (static_window start stop))))
  attach_window _ _ _ = throw (
      binder
        "default_window_start / default_window_end must be paired with each other or with default_window_length"
        [])
