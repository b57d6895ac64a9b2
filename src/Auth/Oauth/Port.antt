-- ===== src/Auth/Oauth/Port.antt =====
-- `DesiredLoopbackPort` of src/calendar_auth.cpp
use mathlib.Core.Option
use duckdb_google_calendar.Common.{
  ℕ, suc, ◌+◌, ◌^◌, ◌<◌, [], ◌∷◌, ◌++◌, Option, none, some, Bytes, codes, find?, drop, ◌≡◌, ◌≢◌,
  ◌∙◌, refl, if◌then◌else◌, length, starts_with, arith, nat_eq,
}
use duckdb_google_calendar.Util.Query.Parse.{Lacks}
use duckdb_google_calendar.Common.Decimal.{
  isdigit, to_string, stoi, stoi-to_string, Digits, to_string-Digits, to_string_cons,
}

-- What stands between the colon and the first character that is no digit.
unfoldable pub leading_digits : Bytes → Bytes
leading_digits [] = []
leading_digits (c ∷ s) = let rest = leading_digits s in if isdigit c then c ∷ rest else []

abbrev pub port_of_digits : Bytes → ℕ
port_of_digits [] = 0
port_of_digits (c ∷ s) = Option.get_or (stoi (c ∷ s)) 0

-- `none` is a variable that is not set.
unfoldable pub desired_loopback_port : Option Bytes → ℕ
unfolding leading_digits
desired_loopback_port none = 0
desired_loopback_port (some []) = 0
desired_loopback_port (some (c ∷ s)) = elim (find? (c ∷ s) (codes "://")) [
  | none ↦ 0
  | some host_pos ↦ elim (find? (drop (host_pos + 3) (c ∷ s)) (b':' ∷ [])) [
    | none ↦ 0
    | some colon ↦ port_of_digits (leading_digits (drop (colon + 1) (drop (host_pos + 3) (c ∷ s))))
  ]
]

fixed_port : desired_loopback_port (some (codes "http://127.0.0.1:8085/cb")) ≡ 8085
unfolding desired_loopback_port find? starts_with stoi
fixed_port = refl

find_colon :
    (host s : Bytes) → Lacks b':' host → find? (host ++ (b':' ∷ s)) (b':' ∷ []) ≡ some (length host)
unfolding find? starts_with
find_colon [] s _ = refl
find_colon (c ∷ host) s (h, hs) = ground (arith, find_colon host s hs)

drop_host : (host s : Bytes) → drop (length host + 1) (host ++ (b':' ∷ s)) ≡ s
drop_host [] s = refl
drop_host (c ∷ host) s =
    rw (let e : suc (length host) + 1 ≡ suc (length host + 1) = omega arith in e) (drop_host host s)

leading_digits-append :
    (ds rest : Bytes) → Digits ds → leading_digits rest ≡ [] → leading_digits (ds ++ rest) ≡ ds
unfolding leading_digits
leading_digits-append [] rest _ h = h
leading_digits-append (d ∷ ds) rest (is, hs) h = rw is (rw (leading_digits-append ds rest hs h))

port_of_digits-to_string : (p : ℕ) → p < 2 ^ 31 → port_of_digits (to_string p) ≡ p
port_of_digits-to_string p h =
    let (c, s, e) = to_string_cons p in
    rw e (rw (let same : stoi (c ∷ s) ≡ some p = rw (← e) (stoi-to_string p h) in same) refl)

find_scheme :
    (scheme s : Bytes)
    → Lacks b':' scheme
    → find? (scheme ++ (codes "://" ++ s)) (codes "://") ≡ some (length scheme)
unfolding find? starts_with
find_scheme [] s _ = refl
find_scheme (c ∷ scheme) s (h, hs) = ground (arith, find_scheme scheme s hs)

drop_scheme : (scheme s : Bytes) → drop (length scheme + 3) (scheme ++ (codes "://" ++ s)) ≡ s
drop_scheme [] s = refl
drop_scheme (c ∷ scheme) s =
    rw (let e : suc (length scheme) + 3 ≡ suc (length scheme + 3) = omega arith in e)
      (drop_scheme scheme s)

-- The port behind a place of the scheme and one of the colon.
found_port :
    (uri rest : Bytes) (host_pos colon : ℕ)
    → uri ≢ []
    → find? uri (codes "://") ≡ some host_pos
    → drop (host_pos + 3) uri ≡ rest
    → find? rest (b':' ∷ []) ≡ some colon
    → desired_loopback_port (some uri) ≡ port_of_digits (leading_digits (drop (colon + 1) rest))
unfolding desired_loopback_port
found_port [] rest host_pos colon set scheme cut there = absurd (set refl)
found_port (c ∷ s) rest host_pos colon set scheme cut there =
    rw (scheme, cut, there, cut, desired_loopback_port)

set_uri : (scheme s : Bytes) → scheme ++ (codes "://" ++ s) ≢ []
set_uri [] s e = cc
set_uri (c ∷ scheme) s e = cc

-- From a redirect URI with a scheme and a host that have no colon, a port below 2^31 in decimal,
-- and a rest that does not begin with a digit, the flow reads exactly this port.
pub desired_loopback_port-to_string :
    (scheme host rest : Bytes) (p : ℕ)
    → Lacks b':' scheme
    → Lacks b':' host
    → leading_digits rest ≡ []
    → p < 2 ^ 31
    → desired_loopback_port
        (some (scheme ++ (codes "://" ++ (host ++ (b':' ∷ (to_string p ++ rest))))))
      ≡ p
desired_loopback_port-to_string scheme host rest p bare lacks other small =
    found_port _ (host ++ (b':' ∷ (to_string p ++ rest))) (length scheme) (length host)
      (set_uri scheme _) (find_scheme scheme _ bare) (drop_scheme scheme _)
      (find_colon host _ lacks)
    ∙ rw
        (
          drop_host host (to_string p ++ rest),
          leading_digits-append (to_string p) rest (to_string-Digits p) other,
        )
        (port_of_digits-to_string p small)
