-- ===== src/Util/Encoding/Chars.antt =====
-- The characters that `Base64UrlEncode` writes.
use duckdb_google_calendar.Common.{
  ℕ, zero, suc, ◌%◌, [], ◌∷◌, Bool, true, not, ◌&&◌, Bytes, All, get_or, ◌≡◌, ◌≢◌, refl, ◌==◌,
  nat_eq, arith,
}
use duckdb_google_calendar.Util.Encoding.{
  base64url_encode, base64url_alphabet, get_base64url_char, index0, index1, index2, index3,
}
use duckdb_google_calendar.Util.Query.Parse.{Lacks}

get_or-All : (P : ℕ → Type 0) (xs : Bytes) (i d : ℕ) → All P xs → P d → P (get_or xs i d)
get_or-All P [] i d _ h = h
get_or-All P (x ∷ xs) zero d (px, _) h = px
get_or-All P (x ∷ xs) (suc i) d (_, hs) h = get_or-All P xs i d hs h

abbrev all_not : Bytes → Bool
all_not [] = true
all_not (c ∷ s) = let rest = all_not s in not (c == b'.') && rest

alphabet-Lacks : Lacks b'.' base64url_alphabet
alphabet-Lacks = lacks_test base64url_alphabet refl
  where
    lacks_test : (s : Bytes) → all_not s ≡ true → Lacks b'.' s
    lacks_test [] h = tt
    lacks_test (c ∷ s) h = (ground arith, lacks_test s (ground arith))

char-Lacks : (x : ℕ) → get_base64url_char x ≢ b'.'
unfolding get_base64url_char
char-Lacks x =
    get_or-All (λ c. c ≢ b'.') base64url_alphabet (x % 256) 0 alphabet-Lacks (ground arith)

-- There is no dot among them.
pub encode-Lacks : (s : Bytes) → Lacks b'.' (base64url_encode s)
unfolding base64url_encode
encode-Lacks [] = tt
encode-Lacks (b0 ∷ []) = (char-Lacks (index0 b0), (char-Lacks (index1 b0 0), tt))
encode-Lacks (b0 ∷ b1 ∷ []) =
    (char-Lacks (index0 b0), (char-Lacks (index1 b0 b1), (char-Lacks (index2 b1 0), tt)))
encode-Lacks (b0 ∷ b1 ∷ b2 ∷ rest) = (
  char-Lacks (index0 b0),
  (
    char-Lacks (index1 b0 b1),
    (char-Lacks (index2 b1 b2), (char-Lacks (index3 b2), encode-Lacks rest)),
  ),
)
