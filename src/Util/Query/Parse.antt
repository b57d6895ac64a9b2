-- ===== src/Util/Query/Parse.antt =====
-- What a server reads from a built query string: a parser of query strings, written apart from the
-- builder, gives the builder's parameters back.
use duckdb_google_calendar.Common.{
  ℕ, List, [], ◌∷◌, ◌++◌, append_assoc, append-nil, Option, none, some, Bytes, IsBytes, ◌≡◌, ◌≢◌,
  refl, true, false, ◌==◌, nat_eq, if◌then◌else◌, arith, map, All, All-append,
}
use duckdb_google_calendar.Util.Query.{QueryBuilder, build, build_loop, url_encode, is_unreserved}
use duckdb_google_calendar.Util.Query.Percent.{
  url_decode, url_decode-url_encode, url_encode-IsUrlSafe, IsUrlSafe, ◌>>=◌,
}

abbrev pub Lacks : ℕ → Bytes → Type 0
Lacks sep = All (λ c. c ≢ sep)

-- The text before the first separator, and what stands behind it if there is one.
pub cut : ℕ → Bytes → Bytes × Option Bytes
cut sep [] = ([], none)
cut sep (c ∷ s) =
    let (before, after) = cut sep s in if c == sep then ([], some s) else (c ∷ before, after)

-- The parts between separators.
pub split : ℕ → Bytes → List Bytes
split sep [] = [] ∷ []
split sep (c ∷ s) = elim (split sep s) [
  | [] ↦ []
  | part ∷ parts ↦ if c == sep then [] ∷ part ∷ parts else (c ∷ part) ∷ parts
]

pub parse_param : Bytes → Option (Bytes × Bytes)
parse_param field =
    let (key, after) = cut b'=' field in
    do value ← after; k ← url_decode key; v ← url_decode value; some (k, v)

pub parse_params : List Bytes → Option (List (Bytes × Bytes))
unfolding parse_param
parse_params [] = some []
parse_params (field ∷ fields) = do p ← parse_param field; ps ← parse_params fields; some (p ∷ ps)

-- `parse_query` of a whole suffix of a URL: nothing, or `?` and the parameters.
pub parse_query : Bytes → Option (List (Bytes × Bytes))
unfolding parse_params split cut
parse_query [] = some []
parse_query (c ∷ s) = if c == b'?' then parse_params (split b'&' s) else none

pub safe-Lacks :
    (sep : ℕ) (s : Bytes) → ((c : ℕ) → IsUrlSafe c → c ≢ sep) → All IsUrlSafe s → Lacks sep s
safe-Lacks sep [] other _ = tt
safe-Lacks sep (c ∷ s) other (h, hs) = (other c h, safe-Lacks sep s other hs)

amp_unsafe : (c : ℕ) → IsUrlSafe c → c ≢ b'&'
unfolding is_unreserved
amp_unsafe c h = ground arith

eq_unsafe : (c : ℕ) → IsUrlSafe c → c ≢ b'='
unfolding is_unreserved
eq_unsafe c h = ground arith

pub cut-append : (sep : ℕ) (p s : Bytes) → Lacks sep p → cut sep (p ++ (sep ∷ s)) ≡ (p, some s)
unfolding cut
cut-append sep [] s _ = ground arith
cut-append sep (c ∷ p) s (h, hs) = ground (arith, cut-append sep p s hs)

pub split-Lacks : (sep : ℕ) (p : Bytes) → Lacks sep p → split sep p ≡ p ∷ []
unfolding split
split-Lacks sep [] _ = refl
split-Lacks sep (c ∷ p) (h, hs) = ground (arith, split-Lacks sep p hs)

split-cons : (sep : ℕ) (s : Bytes) → split sep s ≢ []
unfolding split
split-cons sep [] = ground arith
split-cons sep (c ∷ s) = ground (arith, split-cons sep s)

pub split-append :
    (sep : ℕ) (p s : Bytes) → Lacks sep p → split sep (p ++ (sep ∷ s)) ≡ p ∷ split sep s
unfolding split
split-append sep [] s _ = ground (arith, split-cons sep s)
split-append sep (c ∷ p) s (h, hs) = ground (arith, split-append sep p s hs)

-- One written parameter.
abbrev field : Bytes × Bytes → Bytes
field (key, value) = url_encode key ++ (b'=' ∷ url_encode value)

abbrev pub IsParams : QueryBuilder → Type 0
IsParams = All (λ p. IsBytes p.0 × IsBytes p.1)

field-Lacks : (p : Bytes × Bytes) → IsBytes p.0 → IsBytes p.1 → Lacks b'&' (field p)
field-Lacks (key, value) hk hv =
    All-append _ (url_encode key) _ (safe-Lacks b'&' _ amp_unsafe (url_encode-IsUrlSafe key hk))
      (ground arith, safe-Lacks b'&' _ amp_unsafe (url_encode-IsUrlSafe value hv))

parse_param-field : (p : Bytes × Bytes) → IsBytes p.0 → IsBytes p.1 → parse_param (field p) ≡ some p
unfolding parse_param
parse_param-field (key, value) hk hv = rw (
  cut-append b'=' (url_encode key) (url_encode value)
      (safe-Lacks b'=' _ eq_unsafe (url_encode-IsUrlSafe key hk)),
  url_decode-url_encode key hk,
  url_decode-url_encode value hv,
)

build_loop_cons :
    (p : Bytes × Bytes) (params : QueryBuilder)
    → build_loop true (p ∷ params) ≡ field p ++ build_loop false params
unfolding build_loop
build_loop_cons p params = rw (append_assoc (url_encode p.0) (b'=' ∷ url_encode p.1))

build_loop_amp :
    (p : Bytes × Bytes) (params : QueryBuilder)
    → build_loop false (p ∷ params) ≡ b'&' ∷ build_loop true (p ∷ params)
unfolding build_loop
build_loop_amp p params = refl

build_loop_nil : build_loop false [] ≡ []
unfolding build_loop
build_loop_nil = refl

split-build_loop :
    (p : Bytes × Bytes) (params : QueryBuilder)
    → IsParams (p ∷ params)
    → split b'&' (build_loop true (p ∷ params)) ≡ map field (p ∷ params)
split-build_loop p [] ((hk, hv), _) =
    rw (build_loop_cons, build_loop_nil, append-nil (field p))
      (split-Lacks b'&' (field p) (field-Lacks p hk hv))
split-build_loop p (q ∷ params) ((hk, hv), hs) =
    rw
      (
        build_loop_cons p (q ∷ params),
        build_loop_amp,
        split-append b'&' (field p) _ (field-Lacks p hk hv),
      )
      (rw (split-build_loop q params hs))

parse_params-field :
    (params : QueryBuilder) → IsParams params → parse_params (map field params) ≡ some params
unfolding parse_params
parse_params-field [] _ = refl
parse_params-field (p ∷ params) ((hk, hv), hs) =
    rw (parse_param-field p hk hv, parse_params-field params hs)

-- For keys and values that are bytes, a parser of query strings reads from a built query exactly
-- the parameters that were added, in their order.
pub parse_query-build :
    (params : QueryBuilder) → IsParams params → parse_query (build params) ≡ some params
unfolding build parse_query
parse_query-build [] _ = refl
parse_query-build (p ∷ params) h =
    rw (split-build_loop p params h) (parse_params-field (p ∷ params) h)
