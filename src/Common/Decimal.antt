-- ===== src/Common/Decimal.antt =====
-- `std::to_string` of a number, and `std::stoi` of a text of digits.
use Prim.Native.Nat.{ℕ, zero, suc, ◌+◌, ◌-◌, ◌*◌, ◌/◌, ◌%◌, ◌^◌, ◌<◌}
use mathlib.Core.Path.{◌≡◌, refl, ◌∙◌}
use mathlib.Core.Bool.{Bool, true, ◌&&◌}
use mathlib.Core.Option.{Option, none, some}
use mathlib.Core.List.{[], ◌∷◌, ◌++◌}
use mathlib.Core.Logic.{inl, inr}
use native.Mathlib.Omega.{arith}
use duckdb_google_calendar.Common.Tests.{ltb, leb, if◌then◌else◌, Bool-cases}
use duckdb_google_calendar.Common.Lists.{All, All-append}
use duckdb_google_calendar.Common.Text.{Bytes}

abbrev pub isdigit : ℕ → Bool
isdigit c = leb b'0' c && leb c b'9'

-- A number has fewer digits than the fuel, which is one more than the number.
unfoldable pub to_string_loop : ℕ → ℕ → Bytes
to_string_loop zero n = []
to_string_loop (suc fuel) n =
    let front = to_string_loop fuel (n / 10) in
    if ltb n 10 then (b'0' + n) ∷ [] else front ++ ((b'0' + n % 10) ∷ [])

unfoldable pub to_string : ℕ → Bytes
to_string n = to_string_loop (suc n) n

unfoldable pub digits_value : ℕ → Bytes → ℕ
digits_value acc [] = acc
digits_value acc (c ∷ s) = digits_value (acc * 10 + (c - b'0')) s

-- `none` is `out_of_range`.
unfoldable pub stoi : Bytes → Option ℕ
unfolding digits_value
stoi digits = let n = digits_value 0 digits in if ltb n (2 ^ 31) then some n else none

digits_value-append :
    (acc : ℕ) (s : Bytes) (c : ℕ)
    → digits_value acc (s ++ (c ∷ [])) ≡ digits_value acc s * 10 + (c - b'0')
unfolding digits_value
digits_value-append acc [] c = refl
digits_value-append acc (d ∷ s) c = digits_value-append (acc * 10 + (d - b'0')) s c

digits_value-to_string_loop : (fuel n : ℕ) → n < fuel → digits_value 0 (to_string_loop fuel n) ≡ n
unfolding to_string_loop
digits_value-to_string_loop zero n h = absurd (omega arith)
digits_value-to_string_loop (suc fuel) n h = elim (Bool-cases (ltb n 10)) [
  | inl small ↦ rw (small, to_string_loop) (unfold digits_value in omega arith)
  | inr large ↦
      rw (large, to_string_loop)
        (digits_value-append 0 (to_string_loop fuel (n / 10)) (b'0' + n % 10)
          ∙ rw (digits_value-to_string_loop fuel (n / 10) (ground arith)) (omega arith))
]

pub digits_value-to_string : (n : ℕ) → digits_value 0 (to_string n) ≡ n
unfolding to_string
digits_value-to_string n = digits_value-to_string_loop (suc n) n (omega arith)

pub stoi-to_string : (n : ℕ) → n < 2 ^ 31 → stoi (to_string n) ≡ some n
unfolding stoi
stoi-to_string n h = rw (digits_value-to_string n) (ground arith)

abbrev pub Digits : Bytes → Type 0
Digits = All (λ c. isdigit c ≡ true)

to_string_loop-Digits : (fuel n : ℕ) → Digits (to_string_loop fuel n)
unfolding to_string_loop
to_string_loop-Digits zero n = tt
to_string_loop-Digits (suc fuel) n = elim (Bool-cases (ltb n 10)) [
  | inl small ↦ rw (small, to_string_loop) (ground arith, tt)
  | inr large ↦
      rw (large, to_string_loop)
        (All-append (λ c. isdigit c ≡ true) (to_string_loop fuel (n / 10)) _
          (to_string_loop-Digits fuel (n / 10)) (ground arith, tt))
]

pub to_string-Digits : (n : ℕ) → Digits (to_string n)
unfolding to_string
to_string-Digits n = to_string_loop-Digits (suc n) n

pub to_string_cons : (n : ℕ) → (c : ℕ) × (s : Bytes) × (to_string n ≡ c ∷ s)
unfolding to_string to_string_loop
to_string_cons n = elim (Bool-cases (ltb n 10)) [
  | inl small ↦ rw (small, to_string_loop) (b'0' + n, [], refl)
  | inr large ↦ rw (large, to_string_loop) (last-cons (to_string_loop n (n / 10)) (b'0' + n % 10))
]
  where
    last-cons : (s : Bytes) (c : ℕ) → (d : ℕ) × (t : Bytes) × (s ++ (c ∷ []) ≡ d ∷ t)
    last-cons [] c = (c, [], refl)
    last-cons (d ∷ s) c = (d, s ++ (c ∷ []), refl)
