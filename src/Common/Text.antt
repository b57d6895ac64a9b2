-- ===== src/Common/Text.antt =====
-- `std::string` as the list of its bytes. Fixed vocabulary (JSON keys, column names, templates of
-- messages) is a native `String`; `codes` is its bytes.
use Prim.Native.Nat.{ℕ, suc, ◌<◌}
use Prim.Native.Char.{code}
use Prim.Native.String.{String}
use mathlib.Core.Path.{◌≡◌, refl}
use mathlib.Core.Logic.{◌↔◌}
use mathlib.Core.Bool.{Bool, true, false, ◌&&◌}
use mathlib.Core.List.{List, [], ◌∷◌}
use mathlib.Core.Option
use mathlib.Core.Option.{Option, none, some}
use native.Mathlib.Omega.{arith}
use duckdb_google_calendar.Common.Tests.{Eq, ◌==◌, ltb, nat_eq, if◌then◌else◌}
use duckdb_google_calendar.Common.Lists.{All}

abbrev pub Bytes : Type 0
Bytes = List ℕ

abbrev pub codes : String → Bytes
codes String.[] = []
codes (String.◌∷◌ c s) = code c ∷ codes s

abbrev pub IsByte : ℕ → Type 0
IsByte b = b < 256

abbrev pub IsBytes : Bytes → Type 0
IsBytes = All IsByte

unfoldable pub bytes_beq : Bytes → Bytes → Bool
bytes_beq [] [] = true
bytes_beq [] (_ ∷ _) = false
bytes_beq (_ ∷ _) [] = false
bytes_beq (x ∷ xs) (y ∷ ys) = x == y && bytes_beq xs ys

bytes_beq_sound : (s t : Bytes) → bytes_beq s t ≡ true → s ≡ t
unfolding bytes_beq
bytes_beq_sound [] [] h = refl
bytes_beq_sound [] (y ∷ ys) h = cc
bytes_beq_sound (x ∷ xs) [] h = cc
bytes_beq_sound (x ∷ xs) (y ∷ ys) h = ground (arith, bytes_beq_sound xs ys)

bytes_beq_complete : (s : Bytes) → bytes_beq s s ≡ true
unfolding bytes_beq
bytes_beq_complete [] = refl
bytes_beq_complete (x ∷ xs) = ground (arith, bytes_beq_complete xs)

pub bytes_beq_iff : (s t : Bytes) → (bytes_beq s t ≡ true) ↔ (s ≡ t)
bytes_beq_iff s t = (bytes_beq_sound s t, λ e. rw e (bytes_beq_complete t))

instance abbrev pub bytes_eq : Eq Bytes
bytes_eq = record { beq = bytes_beq; beq_iff = bytes_beq_iff }

-- `s.empty()`
abbrev pub is_empty : Bytes → Bool
is_empty [] = true
is_empty (_ ∷ _) = false

unfoldable pub starts_with : Bytes → Bytes → Bool
starts_with s [] = true
starts_with [] (_ ∷ _) = false
starts_with (c ∷ s) (p ∷ ps) = c == p && starts_with s ps

-- `s.find(pattern)`; `none` is `npos`.
unfoldable pub find? : Bytes → Bytes → Option ℕ
unfolding starts_with
find? [] pattern = if starts_with [] pattern then some 0 else none
find? (c ∷ s) pattern =
    let later = Option.map suc (find? s pattern) in
    if starts_with (c ∷ s) pattern then some 0 else later

abbrev pub contains : Bytes → Bytes → Bool
contains s pattern = elim (find? s pattern) [ none ↦ false | some _ ↦ true ]

-- A test for concrete texts.
abbrev pub all_bytes : Bytes → Bool
all_bytes [] = true
all_bytes (c ∷ s) = let rest = all_bytes s in ltb c 256 && rest

pub all_bytes-IsBytes : (s : Bytes) → all_bytes s ≡ true → IsBytes s
all_bytes-IsBytes [] h = tt
all_bytes-IsBytes (c ∷ s) h = (ground arith, all_bytes-IsBytes s (ground arith))
