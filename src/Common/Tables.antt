-- ===== src/Common/Tables.antt =====
-- Facts over a small range of numbers, by evaluation at each of them.
use Prim.Native.Nat.{ℕ, zero, suc, ◌<◌}
use mathlib.Core.Path.{◌≡◌}
use mathlib.Core.Bool.{Bool, true, ◌&&◌}
use native.Mathlib.Omega.{arith}
use duckdb_google_calendar.Common.Tests.{nat_beq, nat_beq_iff}

unfoldable pub all_below : ℕ → (ℕ → Bool) → Bool
all_below zero test = true
all_below (suc limit) test = let smaller = all_below limit test in smaller && test limit

pub all_below_sound :
    (limit : ℕ) (test : ℕ → Bool) (k : ℕ) → all_below limit test ≡ true → k < limit → test k ≡ true
unfolding all_below
all_below_sound zero test k all below = absurd (omega arith)
all_below_sound (suc limit) test k all below = ground (arith, all_below_sound limit test k)

module _ (f g : ℕ → ℕ) where
  pub by_table :
      (n : ℕ) → all_below n (λ x. nat_beq (f x) (g x)) ≡ true → (x : ℕ) → x < n → f x ≡ g x
  by_table n table x h = (nat_beq_iff _ _).0 (all_below_sound n _ x table h)
