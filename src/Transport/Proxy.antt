-- ===== src/Transport/Proxy.antt =====
-- src/calendar/util/proxy.cpp: the settings of an HTTP proxy, from a secret or from the engine's
-- settings.
use duckdb_google_calendar.Common.{
  ℕ, List, [], ◌∷◌, ◌&&◌, Option, none, some, Bytes, codes, is_empty, starts_with, drop, ltb,
  if◌then◌else◌, ◌==◌, nat_eq, ◌%◌, ◌≤◌, length, ◌⊎◌, ◌≡◌, ◌≢◌,
}
use duckdb_google_calendar.Common.Except.{Result, ok, throw, bind, invalid_input, Exception}
use duckdb_google_calendar.Transport.HttpType.{HttpProxyConfig}

-- `while (!s.empty() && EndsWith(s, "/")) { s.pop_back(); }`
unfoldable pub strip_slashes : Bytes → Bytes
strip_slashes [] = []
strip_slashes (c ∷ s) =
    let rest = strip_slashes s in if is_empty rest && c == b'/' then [] else c ∷ rest

abbrev pub default_proxy : HttpProxyConfig
default_proxy = record { host = []; port = 0; username = []; password = [] }

-- `split` is `StringUtil::Split` at colons, and `stoul` is the standard library's, with `none` where it
-- throws.
module _ (split : Bytes → List Bytes) (stoul : Bytes → Option ℕ) where
  abbrev pub bad_port : Bytes → Exception
  bad_port proxy_value =
      invalid_input "Failed to parse port from http_proxy '%s'" (proxy_value ∷ [])

  -- The cast to 16 bits is written out.
  unfoldable pub parse_port : Bytes → Bytes → Result ℕ
  parse_port proxy_value digits = elim (stoul digits) [
    | none ↦ throw (bad_port proxy_value)
    | some port ↦ if ltb 65535 port then throw (bad_port proxy_value) else ok (port % 65536)
  ]

  -- What is left without the scheme and the slashes at the end, and the port of the scheme.
  unfoldable pub sanitize : Bytes → Bytes × ℕ
  unfolding strip_slashes
  sanitize proxy_value =
      if starts_with proxy_value (codes "http://")
      then (strip_slashes (drop 7 proxy_value), 80)
      else if starts_with proxy_value (codes "https://")
      then (strip_slashes (drop 8 proxy_value), 443)
      else (strip_slashes proxy_value, 80)

  -- From the parts between the colons.
  unfoldable pub host_of_parts : Bytes → ℕ → List Bytes → Result (Bytes × ℕ)
  unfolding parse_port
  host_of_parts proxy_value default_port (host ∷ []) = ok (host, default_port)
  host_of_parts proxy_value default_port (host ∷ digits ∷ []) =
      bind (parse_port proxy_value digits) (λ port. ok (host, port))
  host_of_parts proxy_value default_port _ =
      throw
        (invalid_input "Failed to parse http_proxy '%s' into a host and port" (proxy_value ∷ []))

  unfoldable pub parse_http_proxy_host : Bytes → Result (Bytes × ℕ)
  unfolding sanitize host_of_parts
  parse_http_proxy_host proxy_value =
      let (rest, default_port) = sanitize proxy_value in
      host_of_parts proxy_value default_port (split rest)

  abbrev pub or_empty : Option Bytes → Bytes
  or_empty none = []
  or_empty (some s) = s

  -- A proxy with its credentials; without a proxy the credentials are not looked at.
  unfoldable pub with_proxy : Bytes → Bytes → Bytes → Result HttpProxyConfig
  unfolding parse_http_proxy_host
  with_proxy proxy_value username password =
      if is_empty proxy_value
      then ok default_proxy
      else bind (parse_http_proxy_host proxy_value) (λ (host, port).
        ok (record { host = host; port = port; username = username; password = password }))

  -- `GetHttpProxyConfig`, where `secret` has the three entries of the matching secret, if there is one,
  -- each if it is set; else the texts of the three settings are read.
  unfoldable pub get_http_proxy_config :
      Option (Option Bytes × Option Bytes × Option Bytes)
      → Bytes
      → Bytes
      → Bytes
      → Result HttpProxyConfig
  unfolding with_proxy
  get_http_proxy_config (some (proxy, username, password)) _ _ _ =
      with_proxy (or_empty proxy) (or_empty username) (or_empty password)
  get_http_proxy_config none proxy username password = with_proxy proxy username password

  -- What the parts between the colons say: a host with the port of the scheme, or a host with the
  -- number that the standard library reads, which is neither cut nor changed; else no number below
  -- 65536, or not one or two parts.
  abbrev pub Parsed : Bytes → ℕ → List Bytes → Result (Bytes × ℕ) → Type 0
  Parsed proxy_value default_port parts (ok (host, port)) =
      ((parts ≡ host ∷ []) × (port ≡ default_port))
      ⊎ ((digits : Bytes) × (parts ≡ host ∷ digits ∷ []) × (stoul digits ≡ some port))
  Parsed proxy_value default_port parts (throw e) =
      ((host : Bytes) × (digits : Bytes) × (parts ≡ host ∷ digits ∷ [])
        × (e ≡ bad_port proxy_value)
        × ((n : ℕ) → stoul digits ≡ some n → 65536 ≤ n))
      ⊎ ((length parts ≢ 1) × (length parts ≢ 2))

  -- A proxy that is not set gives no host; else the host and the port are as the parts say, with the
  -- credentials that belong to it.
  abbrev pub Configured : Bytes → Bytes → Bytes → Result HttpProxyConfig → Type 0
  Configured [] username password r = r ≡ ok default_proxy
  Configured (c ∷ s) username password (ok config) =
      Parsed (c ∷ s) (sanitize (c ∷ s)).1 (split (sanitize (c ∷ s)).0)
        (ok (config.host, config.port))
      × (config.username ≡ username)
      × (config.password ≡ password)
  Configured (c ∷ s) username password (throw e) =
      Parsed (c ∷ s) (sanitize (c ∷ s)).1 (split (sanitize (c ∷ s)).0) (throw e)

  abbrev pub Settings :
      Option (Option Bytes × Option Bytes × Option Bytes)
      → Bytes
      → Bytes
      → Bytes
      → Result HttpProxyConfig
      → Type 0
  Settings (some (p, u, s)) proxy username password =
      Configured (or_empty p) (or_empty u) (or_empty s)
  Settings none proxy username password = Configured proxy username password
