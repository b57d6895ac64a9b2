-- ===== src/Resources/Paths.antt =====
-- The path of an event names one event of one calendar, whatever bytes the two ids hold.
use duckdb_google_calendar.Common.{
  ℕ, Bytes, IsBytes, codes, ◌++◌, ◌≡◌, ◌≢◌, sym, ◌∙◌, ap, some, some-injective, arith, drop, Option,
}
use duckdb_google_calendar.Util.Query.{url_encode, is_unreserved}
use duckdb_google_calendar.Util.Query.Percent.{
  IsUrlSafe, url_decode, url_decode-url_encode, url_encode-IsUrlSafe,
}
use duckdb_google_calendar.Util.Query.Parse.{safe-Lacks, cut, cut-append}
use duckdb_google_calendar.Resources.Events.{event_path}

slash_unsafe : (c : ℕ) → IsUrlSafe c → c ≢ b'/'
unfolding is_unreserved
slash_unsafe c h = ground arith

url_encode-injective : (s t : Bytes) → IsBytes s → IsBytes t → url_encode s ≡ url_encode t → s ≡ t
url_encode-injective s t hs ht e =
    some-injective s t
      (sym (url_decode-url_encode s hs) ∙ ap url_decode e ∙ url_decode-url_encode t ht)

module _ (c e : Bytes) (hc : IsBytes c) where
  tail : Bytes
  tail = codes "events/" ++ url_encode e

  cut-event_path : cut b'/' (drop 11 (event_path c e)) ≡ (url_encode c, some tail)
  unfolding event_path tail
  cut-event_path =
      cut-append b'/' (url_encode c) (codes "events/" ++ url_encode e)
        (safe-Lacks b'/' (url_encode c) slash_unsafe (url_encode-IsUrlSafe c hc))

-- For ids that are bytes, two calls for an event go to the same path only if both the calendar and
-- the event are the same.
pub event_path-injective :
    (calendar event calendar' event' : Bytes)
    → IsBytes calendar
    → IsBytes event
    → IsBytes calendar'
    → IsBytes event'
    → event_path calendar event ≡ event_path calendar' event'
    → (calendar ≡ calendar') × (event ≡ event')
unfolding tail
event_path-injective c e c' e' hc he hc' he' same =
    let parts : ◌≡◌ {A = Bytes × Option Bytes} (url_encode c, some (tail c e hc))
        (url_encode c', some (tail c' e' hc')) =
      sym (cut-event_path c e hc)
      ∙ ap (λ (p : Bytes). cut b'/' (drop 11 p)) same
      ∙ cut-event_path c' e' hc' in
    let rests = some-injective _ _ (ap (λ (p : Bytes × Option Bytes). p.1) parts) in
    (
      url_encode-injective c c' hc hc' (ap (λ (p : Bytes × Option Bytes). p.0) parts),
      url_encode-injective e e' he he' (ap (λ (p : Bytes). drop 7 p) rests),
    )
