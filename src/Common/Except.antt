-- ===== src/Common/Except.antt =====
-- Code that changes a world and may throw. What was changed before a throw stays changed.
use mathlib.Core.Path.{◌≡◌, refl}
use mathlib.Core.Logic.{◌⊎◌, inl, inr}
use mathlib.Core.List.{List}
use mathlib.Core.Option.{Option, none, some}
use Prim.Native.Nat.{ℕ}
use Prim.Native.String.{String}
use duckdb_google_calendar.Common.Text.{Bytes}

-- The classes that the source throws. A message is its template with the values put into it.
pub data Exception : Type 0 where
  calendar_api : ℕ → Bytes → Exception
  calendar_parse : Exception
  json_error : Exception
  runtime : String → Exception
  io : String → List Bytes → Exception
  invalid_input : String → List Bytes → Exception
  binder : String → List Bytes → Exception
  not_implemented : String → Exception
  catalog : String → List Bytes → Exception

pub data Result {ℓ} (A : Type ℓ) : Type ℓ where
  ok : A → Result A
  throw : Exception → Result A

abbrev pub bind {ℓ κ} : {A : Type ℓ} {B : Type κ} → Result A → (A → Result B) → Result B
bind (ok a) f = f a
bind (throw e) f = throw e

-- A computation over a world `W`.
abbrev pub Exec : Type 0 → Type 0 → Type 0
Exec W A = W → Result A × W

module _ {W A : Type 0} where
  abbrev pub pure : A → Exec W A
  pure a w = (ok a, w)

  abbrev pub raise : Exception → Exec W A
  raise e w = (throw e, w)

  -- A pure step that may throw.
  abbrev pub lift : Result A → Exec W A
  lift r w = (r, w)

  -- A call that may fail, whose failure the code makes an exception.
  abbrev pub attempt : (W → Option A × W) → Exception → Exec W A
  attempt call e w = elim (call w).0 [ none ↦ (throw e, (call w).1) | some a ↦ (ok a, (call w).1) ]

  -- A call that always returns.
  abbrev pub observe : (W → A × W) → Exec W A
  observe call w = (ok (call w).0, (call w).1)

module _ {W A B : Type 0} where
  abbrev pub continue : Result A → W → (A → Exec W B) → Result B × W
  continue (ok a) w f = f a w
  continue (throw e) w f = (throw e, w)

  infixl 5 ◌>>=◌
  abbrev pub ◌>>=◌ : Exec W A → (A → Exec W B) → Exec W B
  ◌>>=◌ m f w = continue (m w).0 (m w).1 f

  infixl 5 ◌>>◌
  abbrev pub ◌>>◌ : Exec W A → Exec W B → Exec W B
  m >> n = m >>= λ _. n

-- To split on the outcome of a computation and keep the equation.
abbrev pub Threw : {W A : Type 0} → Result A × W → Type 0
Threw {W} p = (e : Exception) × (w : W) × (p ≡ (throw e, w))

abbrev pub Returned : {W A : Type 0} → Result A × W → Type 0
Returned {W} {A} p = (a : A) × (w : W) × (p ≡ (ok a, w))

pub outcome_cases : {W A : Type 0} (p : Result A × W) → Threw p ⊎ Returned p
outcome_cases (throw e, w) = inl (e, w, refl)
outcome_cases (ok a, w) = inr (a, w, refl)

pub Result-cases :
    {A : Type 0} (r : Result A) → ((e : Exception) × (r ≡ throw e)) ⊎ ((a : A) × (r ≡ ok a))
Result-cases (throw e) = inl (e, refl)
Result-cases (ok a) = inr (a, refl)

-- A call of the JSON library that throws where it is `none`.
abbrev pub json_call : {A : Type 0} → Option A → Result A
json_call none = throw json_error
json_call (some a) = ok a

-- What holds of a result where the computation does not throw.
abbrev pub Ensures : {W A : Type 0} → (A → Type 0) → Result A × W → Type 0
Ensures P (ok a, w) = P a
Ensures P (throw e, w) = Unit

-- The equation of what was returned, kept beside what holds of it.
pub kept-Ensures :
    {W A : Type 0} (P : A → Type 0) (p : Result A × W)
    → Ensures P p
    → Ensures (λ a. P a × (p.0 ≡ ok a)) p
kept-Ensures P (ok a, w) h = (h, refl)
kept-Ensures P (throw e, w) h = tt

pub attempt-Ensures :
    {W A : Type 0} (P : A → Type 0) (call : W → Option A × W) (e : Exception) (w : W)
    → ((a : A) → (call w).0 ≡ some a → P a)
    → Ensures P (attempt call e w)
attempt-Ensures {W = W} {A = A} P call e w each = go (call w) each
  where
    go :
        (p : Option A × W)
        → ((a : A) → p.0 ≡ some a → P a)
        → Ensures {W = W} P (elim p.0 [ none ↦ (throw e, p.1) | some a ↦ (ok a, p.1) ])
    go (none, w) h = tt
    go (some a, w) h = h a refl

module _ {W A B : Type 0} (P : B → Type 0) (f : A → Exec W B) where
  continue-Ensures :
      (Q : A → Type 0) (p : Result A × W)
      → Ensures Q p
      → ((a : A) (w : W) → Q a → Ensures P (f a w))
      → Ensures P (continue p.0 p.1 f)
  continue-Ensures Q (ok a, w) h each = each a w h
  continue-Ensures Q (throw e, w) h each = tt

  pub bind-Ensures :
      (Q : A → Type 0) (m : Exec W A) (w : W)
      → Ensures Q (m w)
      → ((a : A) (w : W) → Q a → Ensures P (f a w))
      → Ensures P ((m >>= f) w)
  bind-Ensures Q m w h each = continue-Ensures Q (m w) h each

  any_outcome : (p : Result A × W) → Ensures (λ _. Unit) p
  any_outcome (ok a, w) = tt
  any_outcome (throw e, w) = tt

  -- Whatever the first computation gives.
  pub bind-Ensures_any :
      (m : Exec W A) (w : W) → ((a : A) (w : W) → Ensures P (f a w)) → Ensures P ((m >>= f) w)
  bind-Ensures_any m w each = bind-Ensures (λ _. Unit) m w (any_outcome (m w)) (λ a w' _. each a w')

-- What holds of a result and of the world that is left, where the computation does not throw.
abbrev pub Gives : {W A : Type 0} → (A → W → Type 0) → Result A × W → Type 0
Gives P (ok a, w) = P a w
Gives P (throw e, w) = Unit

module _ {W A B : Type 0} (P : B → W → Type 0) (f : A → Exec W B) where
  continue-Gives :
      (Q : A → W → Type 0) (p : Result A × W)
      → Gives Q p
      → ((a : A) (w : W) → Q a w → Gives P (f a w))
      → Gives P (continue p.0 p.1 f)
  continue-Gives Q (ok a, w) h each = each a w h
  continue-Gives Q (throw e, w) h each = tt

  pub bind-Gives :
      (Q : A → W → Type 0) (m : Exec W A) (w : W)
      → Gives Q (m w)
      → ((a : A) (w : W) → Q a w → Gives P (f a w))
      → Gives P ((m >>= f) w)
  bind-Gives Q m w h each = continue-Gives Q (m w) h each

-- Nothing but the outcome itself.
pub outcome-Gives : {W A : Type 0} (p : Result A × W) → Gives (λ a w. p ≡ (ok a, w)) p
outcome-Gives (ok a, w) = refl
outcome-Gives (throw e, w) = tt

pub weaken-Gives :
    {W A : Type 0} (P Q : A → W → Type 0) (p : Result A × W)
    → ((a : A) (w : W) → Q a w → P a w)
    → Gives Q p
    → Gives P p
weaken-Gives P Q (ok a, w) each h = each a w h
weaken-Gives P Q (throw e, w) each h = tt
