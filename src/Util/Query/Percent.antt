-- ===== src/Util/Query/Percent.antt =====
-- A decoder of percent-encoded text, written from RFC 3986, and what `UrlEncode` writes.
use Prim.Native.Nat.{bit_and}
use duckdb_google_calendar.Common.{
  ℕ, ◌+◌, ◌-◌, ◌*◌, ◌/◌, ◌%◌, ◌<◌, [], ◌∷◌, ◌++◌, Option, none, some, Bytes, IsBytes, ◌≡◌, ◌∙◌,
  refl, Bool, true, false, ◌&&◌, ◌||◌, leb, ◌==◌, nat_eq, if◌then◌else◌, arith, get_or, All,
  All-append, Bool-cases, inl, inr,
}
use duckdb_google_calendar.Common.Tables.{all_below, all_below_sound}
use duckdb_google_calendar.Util.Query.{url_encode, encode_char, is_unreserved, hex}

pub hex_value : ℕ → Option ℕ
hex_value c =
    if leb b'0' c && leb c b'9'
    then some (c - b'0')
    else if leb b'A' c && leb c b'F'
    then some (c - b'A' + 10)
    else none

infixl 5 ◌>>=◌
abbrev pub ◌>>=◌ : {A B : Type 0} → Option A → (A → Option B) → Option B
none >>= f = none
some a >>= f = f a

-- `%` takes two hexadecimal digits; every other byte stands for itself.
pub url_decode : Bytes → Option Bytes
url_decode [] = some []
url_decode (c ∷ []) = if c == b'%' then none else some (c ∷ [])
url_decode (c ∷ d ∷ []) =
    let plain = (do rest ← url_decode (d ∷ []); some (c ∷ rest)) in
    if c == b'%' then none else plain
url_decode (c ∷ d ∷ e ∷ s) =
    let plain = (do rest ← url_decode (d ∷ e ∷ s); some (c ∷ rest)) in
    let escape = (do
      x ← hex_value d
      y ← hex_value e
      rest ← url_decode s
      some ((x * 16 + y) ∷ rest)) in
    if c == b'%' then escape else plain

url_decode_plain :
    (c : ℕ) (s : Bytes)
    → (c == b'%') ≡ false
    → url_decode (c ∷ s) ≡ (url_decode s >>= λ rest. some (c ∷ rest))
unfolding url_decode
url_decode_plain c [] h = rw h
url_decode_plain c (d ∷ []) h = rw h
url_decode_plain c (d ∷ e ∷ s) h = rw h

url_decode_escape :
    (d e : ℕ) {x y : ℕ} (s : Bytes)
    → hex_value d ≡ some x
    → hex_value e ≡ some y
    → url_decode (b'%' ∷ d ∷ e ∷ s) ≡ (url_decode s >>= λ rest. some ((x * 16 + y) ∷ rest))
unfolding url_decode
url_decode_escape d e s hx hy = rw (hx, hy)

abbrev is_value : Option ℕ → ℕ → Bool
is_value none x = false
is_value (some y) x = y == x

value_of_is_value : (o : Option ℕ) (x : ℕ) → is_value o x ≡ true → o ≡ some x
value_of_is_value none x h = ground arith
value_of_is_value (some y) x h = ground arith

high_digit : (c : ℕ) → c < 256 → hex_value (get_or hex (bit_and (c / 16) 15) 0) ≡ some (c / 16)
unfolding hex_value all_below
high_digit c h = value_of_is_value _ _ (
    all_below_sound 256 (λ c. is_value (hex_value (get_or hex (bit_and (c / 16) 15) 0)) (c / 16)) c
      refl h)

low_digit : (c : ℕ) → c < 256 → hex_value (get_or hex (bit_and c 15) 0) ≡ some (c % 16)
unfolding hex_value all_below
low_digit c h = value_of_is_value _ _ (
    all_below_sound 256 (λ c. is_value (hex_value (get_or hex (bit_and c 15) 0)) (c % 16)) c refl h)

unreserved_not_percent : (c : ℕ) → is_unreserved c ≡ true → (c == b'%') ≡ false
unfolding is_unreserved
unreserved_not_percent c h = ground arith

url_decode-encode_char :
    (c : ℕ) (s : Bytes)
    → c < 256
    → url_decode (encode_char c ++ s) ≡ (url_decode s >>= λ rest. some (c ∷ rest))
url_decode-encode_char c s h = elim (Bool-cases (is_unreserved c)) [
  | inl plain ↦
      unfold encode_char in rw plain (url_decode_plain c s (unreserved_not_percent c plain))
  | inr escape ↦
      unfold encode_char in
      rw escape (
        url_decode_escape _ _ s (high_digit c h) (low_digit c h)
        ∙ rw (let e : c / 16 * 16 + c % 16 ≡ c = omega arith in e))
]

-- Percent-decoding what `UrlEncode` made of any bytes gives them back.
pub url_decode-url_encode :
    (value : Bytes) → IsBytes value → url_decode (url_encode value) ≡ some value
unfolding url_encode
url_decode-url_encode [] _ = unfold url_decode in refl
url_decode-url_encode (c ∷ value) (hc, h) =
    url_decode-encode_char c _ hc ∙ rw (url_decode-url_encode value h)

-- The characters that the encoder writes: the unreserved ones and the percent sign.
abbrev pub IsUrlSafe : ℕ → Type 0
IsUrlSafe c = (is_unreserved c || c == b'%') ≡ true

digit_safe : (x : ℕ) → x < 256 → (is_unreserved (get_or hex (bit_and x 15) 0)) ≡ true
unfolding all_below is_unreserved
digit_safe x h = all_below_sound 256 (λ x. is_unreserved (get_or hex (bit_and x 15) 0)) x refl h

encode_char-IsUrlSafe : (c : ℕ) → c < 256 → All IsUrlSafe (encode_char c)
encode_char-IsUrlSafe c h = elim (Bool-cases (is_unreserved c)) [
  | inl plain ↦ unfold encode_char in rw plain (rw plain, tt)
  | inr escape ↦
      unfold encode_char in
      rw escape (
        unfold is_unreserved in refl,
        (rw (digit_safe (c / 16) (omega arith)), (rw (digit_safe c h), tt)),
      )
]

-- `UrlEncode` of any bytes has no character but the unreserved ones and the percent sign.
pub url_encode-IsUrlSafe : (value : Bytes) → IsBytes value → All IsUrlSafe (url_encode value)
unfolding url_encode
url_encode-IsUrlSafe [] _ = tt
url_encode-IsUrlSafe (c ∷ value) (hc, h) =
    All-append IsUrlSafe (encode_char c) _ (encode_char-IsUrlSafe c hc)
      (url_encode-IsUrlSafe value h)
