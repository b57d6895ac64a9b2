-- ===== src/Util/Query.antt =====
-- src/calendar/util/query.cpp: percent-encoding and the query string builder.
pub mod Percent
pub mod Parse
use Prim.Native.Nat.{bit_and}
use duckdb_google_calendar.Common.{
  ℕ, ◌+◌, ◌/◌, ◌%◌, ◌^◌, List, [], ◌∷◌, ◌++◌, Bytes, codes, get_or, ◌≡◌, refl, Bool, true, false,
  ◌&&◌, ◌||◌, leb, ◌==◌, nat_eq, if◌then◌else◌,
}

-- `std::isalnum` in the "C" locale.
abbrev pub isalnum : ℕ → Bool
isalnum c = leb b'0' c && leb c b'9' || leb b'A' c && leb c b'Z' || leb b'a' c && leb c b'z'

unfoldable pub is_unreserved : ℕ → Bool
is_unreserved c = isalnum c || c == b'-' || c == b'_' || c == b'.' || c == b'~'

abbrev pub hex : Bytes
hex = codes "0123456789ABCDEF"

-- What one round of the loop appends.
unfoldable pub encode_char : ℕ → Bytes
unfolding is_unreserved
encode_char c =
    if is_unreserved c
    then c ∷ []
    else b'%' ∷ get_or hex (bit_and (c / 2 ^ 4) 0xF) 0 ∷ get_or hex (bit_and c 0xF) 0 ∷ []

unfoldable pub url_encode : Bytes → Bytes
unfolding encode_char
url_encode [] = []
url_encode (c ∷ value) = encode_char c ++ url_encode value

-- `QueryBuilder` is the list of its parameters.
abbrev pub QueryBuilder : Type 0
QueryBuilder = List (Bytes × Bytes)

unfoldable pub add : QueryBuilder → Bytes → Bytes → QueryBuilder
add params key value = params ++ ((key, value) ∷ [])

-- The loop over the parameters; `first` is the source's flag.
unfoldable pub build_loop : Bool → QueryBuilder → Bytes
build_loop first [] = []
build_loop first ((key, value) ∷ params) =
    (if first then [] else b'&' ∷ [])
    ++ (url_encode key ++ (b'=' ∷ (url_encode value ++ build_loop false params)))

unfoldable pub build : QueryBuilder → Bytes
unfolding build_loop
build [] = []
build (p ∷ params) = b'?' ∷ build_loop true (p ∷ params)

build_two :
    build (add (add [] (codes "timeMin") (codes "2026-06-01T00:00:00Z")) (codes "q") (codes "a&b"))
    ≡ codes "?timeMin=2026-06-01T00%3A00%3A00Z&q=a%26b"
unfolding build add url_encode
build_two = refl
