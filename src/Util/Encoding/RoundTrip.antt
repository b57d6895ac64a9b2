-- ===== src/Util/Encoding/RoundTrip.antt =====
-- A decoder of unpadded base64url, written from RFC 4648, and what the encoder's output is to it.
use duckdb_google_calendar.Common.{
  ℕ, ◌+◌, ◌-◌, ◌*◌, ◌/◌, ◌%◌, ◌<◌, [], ◌∷◌, Option, none, some, Bytes, IsBytes, ◌≡◌, ◌∙◌, refl,
  Bool, true, false, ◌&&◌, leb, ◌==◌, nat_eq, if◌then◌else◌, arith,
}
use duckdb_google_calendar.Common.Tables.{all_below, all_below_sound}
use duckdb_google_calendar.Util.Encoding.{
  base64url_encode, get_base64url_char, index0, index1, index2, index3,
}
use duckdb_google_calendar.Util.Encoding.Bits.{index0_lem, index1_lem, index2_lem, index3_lem}

-- The six bits that a character stands for.
pub char_value : ℕ → Option ℕ
char_value c =
    if leb b'A' c && leb c b'Z'
    then some (c - b'A')
    else if leb b'a' c && leb c b'z'
    then some (c - b'a' + 26)
    else if leb b'0' c && leb c b'9'
    then some (c - b'0' + 52)
    else if c == b'-'
    then some 62
    else if c == b'_'
    then some 63
    else none

infixl 5 ◌>>=◌
abbrev ◌>>=◌ : {A B : Type 0} → Option A → (A → Option B) → Option B
none >>= f = none
some a >>= f = f a

-- Four characters hold three bytes; two or three at the end hold one or two.
pub base64url_decode : Bytes → Option Bytes
base64url_decode [] = some []
base64url_decode (c0 ∷ []) = none
base64url_decode (c0 ∷ c1 ∷ []) = do
  x0 ← char_value c0
  x1 ← char_value c1
  some ((x0 * 4 + x1 / 16) ∷ [])
base64url_decode (c0 ∷ c1 ∷ c2 ∷ []) = do
  x0 ← char_value c0
  x1 ← char_value c1
  x2 ← char_value c2
  some ((x0 * 4 + x1 / 16) ∷ (x1 % 16 * 16 + x2 / 4) ∷ [])
base64url_decode (c0 ∷ c1 ∷ c2 ∷ c3 ∷ rest) = do
  x0 ← char_value c0
  x1 ← char_value c1
  x2 ← char_value c2
  x3 ← char_value c3
  bytes ← base64url_decode rest
  some ((x0 * 4 + x1 / 16) ∷ (x1 % 16 * 16 + x2 / 4) ∷ (x2 % 4 * 64 + x3) ∷ bytes)

abbrev is_value : Option ℕ → ℕ → Bool
is_value none x = false
is_value (some y) x = y == x

value_of_is_value : (o : Option ℕ) (x : ℕ) → is_value o x ≡ true → o ≡ some x
value_of_is_value none x h = ground arith
value_of_is_value (some y) x h = ground arith

value_at : (x : ℕ) → x < 64 → char_value (get_base64url_char x) ≡ some x
unfolding get_base64url_char all_below char_value
value_at x h =
    value_of_is_value _ x
      (all_below_sound 64 (λ y. is_value (char_value (get_base64url_char y)) y) x refl h)

-- The values of the characters of a round, from its bytes.
module _ (b0 b1 b2 : ℕ) (h0 : b0 < 256) (h1 : b1 < 256) (h2 : b2 < 256) where
  value0 : char_value (get_base64url_char (index0 b0)) ≡ some (b0 / 4)
  value0 = rw (index0_lem b0 h0) (value_at (b0 / 4) (omega arith))

  value1 : char_value (get_base64url_char (index1 b0 b1)) ≡ some (b0 % 4 * 16 + b1 / 16)
  value1 = rw (index1_lem b0 b1 h0 h1) (value_at _ (omega arith))

  value2 : char_value (get_base64url_char (index2 b1 b2)) ≡ some (b1 % 16 * 4 + b2 / 64)
  value2 = rw (index2_lem b1 b2 h1 h2) (value_at _ (omega arith))

  value3 : char_value (get_base64url_char (index3 b2)) ≡ some (b2 % 64)
  value3 = rw (index3_lem b2 h2) (value_at _ (omega arith))

module _ (b0 b1 b2 : ℕ) where
  -- The bytes come back from the six-bit values.
  byte0 : b1 < 256 → b0 / 4 * 4 + (b0 % 4 * 16 + b1 / 16) / 16 ≡ b0
  byte0 h = omega arith

  byte1 : b1 < 256 → b2 < 256 → (b0 % 4 * 16 + b1 / 16) % 16 * 16 + (b1 % 16 * 4 + b2 / 64) / 4 ≡ b1
  byte1 h h2 = omega arith

  byte2 : b2 < 256 → (b1 % 16 * 4 + b2 / 64) % 4 * 64 + b2 % 64 ≡ b2
  byte2 h = omega arith

-- Decoding from the values of the characters.
module _ (c0 c1 : ℕ) {x0 x1 : ℕ} (v0 : char_value c0 ≡ some x0) (v1 : char_value c1 ≡ some x1) where
  decode_two : base64url_decode (c0 ∷ c1 ∷ []) ≡ some ((x0 * 4 + x1 / 16) ∷ [])
  unfolding base64url_decode
  decode_two = rw (v0, v1)

  module _ (c2 : ℕ) {x2 : ℕ} (v2 : char_value c2 ≡ some x2) where
    decode_three :
        base64url_decode (c0 ∷ c1 ∷ c2 ∷ [])
        ≡ some ((x0 * 4 + x1 / 16) ∷ (x1 % 16 * 16 + x2 / 4) ∷ [])
    unfolding base64url_decode
    decode_three = rw (v0, v1, v2)

    decode_four :
        (c3 : ℕ) {x3 : ℕ} (rest : Bytes) {bytes : Bytes}
        → char_value c3 ≡ some x3
        → base64url_decode rest ≡ some bytes
        → base64url_decode (c0 ∷ c1 ∷ c2 ∷ c3 ∷ rest)
          ≡ some ((x0 * 4 + x1 / 16) ∷ (x1 % 16 * 16 + x2 / 4) ∷ (x2 % 4 * 64 + x3) ∷ bytes)
    unfolding base64url_decode
    decode_four c3 rest v3 r = rw (v0, v1, v2, v3, r)

-- Decoding what `Base64UrlEncode` made of any bytes gives them back, at every length.
pub decode-encode :
    (input : Bytes) → IsBytes input → base64url_decode (base64url_encode input) ≡ some input
unfolding base64url_encode
decode-encode [] _ = unfold base64url_decode in refl
decode-encode (b0 ∷ []) (h0, _) =
    decode_two _ _ (value0 b0 0 0 h0 z z) (value1 b0 0 0 h0 z z) ∙ rw (byte0 b0 0 0 z)
  where
    z : 0 < 256
    z = omega arith
decode-encode (b0 ∷ b1 ∷ []) (h0, (h1, _)) =
    decode_three _ _ (value0 b0 b1 0 h0 h1 z) (value1 b0 b1 0 h0 h1 z) _ (value2 b0 b1 0 h0 h1 z)
    ∙ rw (byte0 b0 b1 0 h1, byte1 b0 b1 0 h1 z)
  where
    z : 0 < 256
    z = omega arith
decode-encode (b0 ∷ b1 ∷ b2 ∷ rest) (h0, (h1, (h2, h))) =
    decode_four _ _ (value0 b0 b1 b2 h0 h1 h2) (value1 b0 b1 b2 h0 h1 h2) _
      (value2 b0 b1 b2 h0 h1 h2) _ _ (value3 b0 b1 b2 h0 h1 h2) (decode-encode rest h)
    ∙ rw (byte0 b0 b1 b2 h1, byte1 b0 b1 b2 h1 h2, byte2 b0 b1 b2 h2)
