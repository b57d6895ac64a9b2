-- ===== src/Auth/Oauth/Url.antt =====
-- The URL of the consent page: what the server reads from it, and what the shell does.
use duckdb_google_calendar.Common.{
  ℕ, [], ◌∷◌, ◌++◌, Option, none, some, Bool, true, not, ◌&&◌, ◌||◌, Bytes, codes, IsBytes,
  all_bytes-IsBytes, ◌≡◌, refl, ◌==◌, nat_eq, if◌then◌else◌, All, All-append, arith,
}
use duckdb_google_calendar.Util.Query.{
  QueryBuilder, build, build_loop, url_encode, encode_char, is_unreserved,
}
use duckdb_google_calendar.Util.Query.Percent.{url_encode-IsUrlSafe, IsUrlSafe}
use duckdb_google_calendar.Util.Query.Parse.{parse_query, parse_query-build, IsParams}
use duckdb_google_calendar.Auth.Oauth.{auth_request_url, browser_command, scope}

abbrev pub consent_page : Bytes
consent_page = codes "https://accounts.google.com/o/oauth2/v2/auth"

-- The parameters of the request for a code, with the proof key of its client.
abbrev pub auth_params : Bytes → Bytes → Bytes → Bytes → QueryBuilder
auth_params client_id redirect_uri state code_challenge =
    (codes "response_type", codes "code")
    ∷ (codes "client_id", client_id)
    ∷ (codes "redirect_uri", redirect_uri)
    ∷ (codes "scope", codes "https://www.googleapis.com/auth/calendar")
    ∷ (codes "state", state)
    ∷ (codes "code_challenge", code_challenge)
    ∷ (codes "code_challenge_method", codes "S256")
    ∷ (codes "access_type", codes "offline")
    ∷ (codes "prompt", codes "consent")
    ∷ []

url-build :
    (client_id redirect_uri state code_challenge : Bytes)
    → auth_request_url client_id redirect_uri state code_challenge
      ≡ consent_page ++ build (auth_params client_id redirect_uri state code_challenge)
unfolding auth_request_url build build_loop url_encode encode_char is_unreserved
url-build client_id redirect_uri state code_challenge = refl

module _ (client_id redirect_uri state code_challenge : Bytes) (h1 : IsBytes client_id)
    (h2 : IsBytes redirect_uri) (h3 : IsBytes state) (h4 : IsBytes code_challenge) where
  auth_params-IsParams : IsParams (auth_params client_id redirect_uri state code_challenge)
  auth_params-IsParams = (
    (all_bytes-IsBytes (codes "response_type") refl, all_bytes-IsBytes (codes "code") refl),
    (
      (all_bytes-IsBytes (codes "client_id") refl, h1),
      (
        (all_bytes-IsBytes (codes "redirect_uri") refl, h2),
        (
          (
            all_bytes-IsBytes (codes "scope") refl,
            all_bytes-IsBytes (codes "https://www.googleapis.com/auth/calendar") refl,
          ),
          (
            (all_bytes-IsBytes (codes "state") refl, h3),
            (
              (all_bytes-IsBytes (codes "code_challenge") refl, h4),
              (
                (
                  all_bytes-IsBytes (codes "code_challenge_method") refl,
                  all_bytes-IsBytes (codes "S256") refl,
                ),
                (
                  (
                    all_bytes-IsBytes (codes "access_type") refl,
                    all_bytes-IsBytes (codes "offline") refl,
                  ),
                  (
                    (
                      all_bytes-IsBytes (codes "prompt") refl,
                      all_bytes-IsBytes (codes "consent") refl,
                    ),
                    tt,
                  ),
                ),
              ),
            ),
          ),
        ),
      ),
    ),
  )

  -- For a client id, a redirect URI, a state and a challenge that are bytes, the URL of the
  -- consent page is that page with a query from which a parser reads exactly the nine parameters
  -- of a request for a code with a proof key, these four among them.
  pub auth_request_url-parse :
      (query : Bytes) × (auth_request_url client_id redirect_uri state code_challenge
        ≡ codes "https://accounts.google.com/o/oauth2/v2/auth" ++ query)
      × (parse_query query ≡ some (auth_params client_id redirect_uri state code_challenge))
  auth_request_url-parse = (
    build (auth_params client_id redirect_uri state code_challenge),
    url-build client_id redirect_uri state code_challenge,
    parse_query-build _ auth_params-IsParams,
  )

-- What a shell makes of a text between double quotes: the text up to the closing quote, and what is
-- left. `none` where the shell would put something else in its place.
pub read_quoted : Bytes → Option (Bytes × Bytes)
read_quoted [] = none
read_quoted (c ∷ s) =
    let rest = read_quoted s in
    if c == b'"'
    then some ([], s)
    else if c == b'$' || c == b'`' || c == b'\\'
    then none
    else elim rest [ none ↦ none | some (word, behind) ↦ some (c ∷ word, behind) ]

abbrev plain : ℕ → Bool
plain c = not (c == b'"') && not (c == b'$') && not (c == b'`') && not (c == b'\\')

abbrev Plain : Bytes → Type 0
Plain = All (λ c. plain c ≡ true)

abbrev all_plain : Bytes → Bool
all_plain [] = true
all_plain (c ∷ s) = let rest = all_plain s in plain c && rest

all_plain-Plain : (s : Bytes) → all_plain s ≡ true → Plain s
all_plain-Plain [] h = tt
all_plain-Plain (c ∷ s) h = (ground arith, all_plain-Plain s (ground arith))

safe-Plain : (s : Bytes) → All IsUrlSafe s → Plain s
unfolding is_unreserved
safe-Plain [] _ = tt
safe-Plain (c ∷ s) (h, hs) = (ground arith, safe-Plain s hs)

read_quoted-Plain :
    (s behind : Bytes) → Plain s → read_quoted (s ++ (b'"' ∷ behind)) ≡ some (s, behind)
unfolding read_quoted
read_quoted-Plain [] behind _ = refl
read_quoted-Plain (c ∷ s) behind (h, hs) = ground (arith, read_quoted-Plain s behind hs)

-- One piece of the URL after another: a literal text and an encoded one.
piece-Plain :
    (literal value rest : Bytes)
    → all_plain literal ≡ true
    → IsBytes value
    → Plain rest
    → Plain (literal ++ (url_encode value ++ rest))
piece-Plain literal value rest h hv hr =
    All-append _ literal _ (all_plain-Plain literal h)
      (All-append _ (url_encode value) rest (safe-Plain _ (url_encode-IsUrlSafe value hv)) hr)

url-Plain :
    (client_id redirect_uri state code_challenge : Bytes)
    → IsBytes client_id
    → IsBytes redirect_uri
    → IsBytes state
    → IsBytes code_challenge
    → Plain (auth_request_url client_id redirect_uri state code_challenge)
unfolding auth_request_url
url-Plain client_id redirect_uri state code_challenge h1 h2 h3 h4 =
    piece-Plain (codes "https://accounts.google.com/o/oauth2/v2/auth?response_type=code&client_id=")
      client_id _ refl h1
      (piece-Plain (codes "&redirect_uri=") redirect_uri _ refl h2 (
        piece-Plain (codes "&scope=") scope _ refl (all_bytes-IsBytes scope refl) (
          piece-Plain (codes "&state=") state _ refl h3 (
            piece-Plain (codes "&code_challenge=") code_challenge _ refl h4 (
              all_plain-Plain
                (codes "&code_challenge_method=S256&access_type=offline&prompt=consent") refl)))))

-- Whatever the client id, the redirect URI, the state and the challenge are, as bytes: the command
-- that opens the consent page has its URL between double quotes, and a shell reads it there as one
-- word and as it stands.
pub browser_command_safe :
    (client_id redirect_uri state code_challenge : Bytes)
    → IsBytes client_id
    → IsBytes redirect_uri
    → IsBytes state
    → IsBytes code_challenge
    → (quoted : Bytes) × (browser_command
          (auth_request_url client_id redirect_uri state code_challenge)
        ≡ codes "xdg-open \"" ++ quoted)
      × (read_quoted quoted
          ≡ some (auth_request_url client_id redirect_uri state code_challenge, []))
unfolding browser_command
browser_command_safe client_id redirect_uri state code_challenge h1 h2 h3 h4 = (
  auth_request_url client_id redirect_uri state code_challenge ++ codes "\"",
  refl,
  read_quoted-Plain _ [] (url-Plain client_id redirect_uri state code_challenge h1 h2 h3 h4),
)
