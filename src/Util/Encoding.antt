-- ===== src/Util/Encoding.antt =====
-- src/calendar/util/encoding.cpp: base64url without padding, and the normaliser of PEM keys.
pub mod Bits
pub mod RoundTrip
pub mod Pem
pub mod Chars
use Prim.Native.Nat.{bit_and, bit_or}
use mathlib.Core.Option
use duckdb_google_calendar.Common.{
  ℕ, ◌*◌, ◌/◌, ◌%◌, [], ◌∷◌, ◌++◌, Option, none, some, Bytes, codes, get_or, ◌≡◌, refl, ◌^◌,
}

-- The constants of encoding.hpp.
abbrev pub mask_top6 : ℕ
mask_top6 = 0xFC

abbrev pub mask_bot2 : ℕ
mask_bot2 = 0x03

abbrev pub mask_top4 : ℕ
mask_top4 = 0xF0

abbrev pub mask_bot4 : ℕ
mask_bot4 = 0x0F

abbrev pub mask_top2 : ℕ
mask_top2 = 0xC0

abbrev pub mask_bot6 : ℕ
mask_bot6 = 0x3F

abbrev pub base64url_alphabet : Bytes
base64url_alphabet = codes "ABCDEFGHIJKLMNOPQRSTUVWXYZabcdefghijklmnopqrstuvwxyz0123456789-_"

-- The argument is narrowed to an `unsigned char`. Reading past the array is never reached.
pub get_base64url_char : ℕ → ℕ
get_base64url_char six_bits = get_or base64url_alphabet (six_bits % 256) 0

-- The four indices of a round of the loop, from its three bytes.
pub index0 : ℕ → ℕ
index0 b0 = bit_and b0 mask_top6 / 2 ^ 2

pub index1 : ℕ → ℕ → ℕ
index1 b0 b1 = bit_or (bit_and b0 mask_bot2 * 2 ^ 4) (bit_and b1 mask_top4 / 2 ^ 4)

pub index2 : ℕ → ℕ → ℕ
index2 b1 b2 = bit_or (bit_and b1 mask_bot4 * 2 ^ 2) (bit_and b2 mask_top2 / 2 ^ 6)

pub index3 : ℕ → ℕ
index3 b2 = bit_and b2 mask_bot6

-- What a round appends where `i + 1 < len` holds exactly if the second byte is there, and
-- `i + 2 < len` exactly if the third is; a byte that is not there is read as 0.
encode_round : ℕ → Option ℕ → Option ℕ → Bytes
encode_round b0 o1 o2 =
    let b1 = Option.get_or o1 0 in
    let b2 = Option.get_or o2 0 in
    get_base64url_char (index0 b0)
    ∷ get_base64url_char (index1 b0 b1)
    ∷ (elim o1 [ none ↦ [] | some _ ↦ get_base64url_char (index2 b1 b2) ∷ [] ]
        ++ elim o2 [ none ↦ [] | some _ ↦ get_base64url_char (index3 b2) ∷ [] ])

-- The list is what stands from index `i` on.
pub base64url_encode : Bytes → Bytes
unfolding encode_round get_base64url_char index0 index1 index2 index3
base64url_encode [] = []
base64url_encode (b0 ∷ []) = encode_round b0 none none
base64url_encode (b0 ∷ b1 ∷ []) = encode_round b0 (some b1) none
base64url_encode (b0 ∷ b1 ∷ b2 ∷ rest) =
    encode_round b0 (some b1) (some b2) ++ base64url_encode rest

encode_man : base64url_encode (codes "Man") ≡ codes "TWFu"
unfolding base64url_encode
encode_man = refl

encode_short : base64url_encode (0xFB ∷ 0xFF ∷ []) ≡ codes "-_8"
unfolding base64url_encode
encode_short = refl
