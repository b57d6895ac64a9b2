-- ===== src/Util/Encoding/Bits.antt =====
-- The masks and shifts of a round, as arithmetic on bytes.
use Prim.Native.Nat.{bit_and, bit_or}
use duckdb_google_calendar.Common.{ℕ, ◌+◌, ◌*◌, ◌/◌, ◌%◌, ◌<◌, ◌≡◌, refl, arith}
use duckdb_google_calendar.Common.Tables.{all_below, by_table}
use duckdb_google_calendar.Util.Encoding.{index0, index1, index2, index3}

pub index0_lem : (b0 : ℕ) → b0 < 256 → index0 b0 ≡ b0 / 4
unfolding index0 all_below
index0_lem = by_table _ _ 256 refl

pub index3_lem : (b2 : ℕ) → b2 < 256 → index3 b2 ≡ b2 % 64
unfolding index3 all_below
index3_lem = by_table _ _ 256 refl

low2 : (b : ℕ) → b < 256 → bit_and b 3 * 16 ≡ b % 4 * 16
unfolding all_below
low2 = by_table _ _ 256 refl

high4 : (b : ℕ) → b < 256 → bit_and b 0xF0 / 16 ≡ b / 16
unfolding all_below
high4 = by_table _ _ 256 refl

low4 : (b : ℕ) → b < 256 → bit_and b 15 * 4 ≡ b % 16 * 4
unfolding all_below
low4 = by_table _ _ 256 refl

high2 : (b : ℕ) → b < 256 → bit_and b 0xC0 / 64 ≡ b / 64
unfolding all_below
high2 = by_table _ _ 256 refl

-- One number codes both halves.
or16 : (x : ℕ) → x < 64 → bit_or (x / 16 * 16) (x % 16) ≡ x
unfolding all_below
or16 = by_table _ _ 64 refl

or4 : (x : ℕ) → x < 64 → bit_or (x / 4 * 4) (x % 4) ≡ x
unfolding all_below
or4 = by_table _ _ 64 refl

pub index1_lem : (b0 b1 : ℕ) → b0 < 256 → b1 < 256 → index1 b0 b1 ≡ b0 % 4 * 16 + b1 / 16
unfolding index1
index1_lem b0 b1 h0 h1 =
    rw (low2 b0 h0, high4 b1 h1)
      (join (b0 % 4 * 16 + b1 / 16) (omega arith) (omega arith) (omega arith))
  where
    join :
        (x : ℕ)
        → x < 64
        → x / 16 * 16 ≡ b0 % 4 * 16
        → x % 16 ≡ b1 / 16
        → bit_or (b0 % 4 * 16) (b1 / 16) ≡ x
    join x lt hi lo = rw (← hi, ← lo) (or16 x lt)

pub index2_lem : (b1 b2 : ℕ) → b1 < 256 → b2 < 256 → index2 b1 b2 ≡ b1 % 16 * 4 + b2 / 64
unfolding index2
index2_lem b1 b2 h1 h2 =
    rw (low4 b1 h1, high2 b2 h2)
      (join (b1 % 16 * 4 + b2 / 64) (omega arith) (omega arith) (omega arith))
  where
    join :
        (x : ℕ)
        → x < 64
        → x / 4 * 4 ≡ b1 % 16 * 4
        → x % 4 ≡ b2 / 64
        → bit_or (b1 % 16 * 4) (b2 / 64) ≡ x
    join x lt hi lo = rw (← hi, ← lo) (or4 x lt)
