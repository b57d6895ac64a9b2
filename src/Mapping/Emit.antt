-- ===== src/Mapping/Emit.antt =====
-- `EmitReturnedRows`, and the loop of the engine that calls a source until it says FINISHED.
use Prim.Native.Nat.{min}
use mathlib.Core.Option
use duckdb_google_calendar.Common.{
  ℕ, zero, suc, ◌+◌, ◌-◌, ◌*◌, ◌<◌, ◌≤◌, List, [], ◌∷◌, ◌++◌, Bool, true, false, leb, if◌then◌else◌,
  ◌≡◌, refl, ◌∙◌, take, drop, length, arith, ap, Bool-cases, inl, inr, take-append-drop,
  length-drop, Option, none, some,
}

-- The number of rows of a vector of the engine.
abbrev pub standard_vector_size : ℕ
standard_vector_size = 2048

module _ {Row : Type 0} where
  -- The rows that are put into the chunk, and the new offset.
  unfoldable pub emit_returned_rows : List Row → ℕ → List Row × ℕ
  emit_returned_rows returned offset =
      let count = min standard_vector_size (length returned - offset) in
      (take count (drop offset returned), offset + count)

  -- `GetDataInternal` with RETURNING: the chunk, the new offset, and whether it is FINISHED.
  unfoldable pub get_returned : List Row → ℕ → List Row × ℕ × Bool
  unfolding emit_returned_rows
  get_returned returned offset =
      let (chunk, offset') = emit_returned_rows returned offset in
      (chunk, offset', leb (length returned) offset')

  -- The engine's calls until the source is FINISHED, at most `fuel` of them; `none` if it is not.
  unfoldable pub drain : ℕ → List Row → ℕ → Option (List Row)
  drain zero returned offset = none
  drain (suc fuel) returned offset =
      let (chunk, offset', finished) = get_returned returned offset in
      let rest = Option.map (λ rows. chunk ++ rows) (drain fuel returned offset') in
      if finished then some chunk else rest

  take_all : (n : ℕ) (xs : List Row) → length xs ≤ n → take n xs ≡ xs
  take_all zero [] h = refl
  take_all zero (x ∷ xs) h = absurd (omega arith)
  take_all (suc n) [] h = refl
  take_all (suc n) (x ∷ xs) h = ap (λ (ys : List Row). x ∷ ys) (take_all n xs (omega arith))

  drop-drop : (m n : ℕ) (xs : List Row) → drop n (drop m xs) ≡ drop (m + n) xs
  drop-drop zero n xs = rw (let e : 0 + n ≡ n = omega arith in e)
  drop-drop (suc m) n (x ∷ xs) =
      drop-drop m n xs ∙ rw (let e : suc m + n ≡ suc (m + n) = omega arith in e)
  drop-drop (suc m) zero [] = rw (let e : suc m + 0 ≡ suc m = omega arith in e)
  drop-drop (suc m) (suc n) [] = rw (let e : suc m + suc n ≡ suc (m + suc n) = omega arith in e)

  drain_lem :
      (fuel : ℕ) (returned : List Row) (offset : ℕ)
      → offset ≤ length returned
      → length returned < offset + fuel * standard_vector_size
      → drain fuel returned offset ≡ some (drop offset returned)
  unfolding drain get_returned
  drain_lem zero returned offset within enough = absurd (omega arith)
  drain_lem (suc fuel) returned offset within enough =
      elim (Bool-cases (leb (length returned) (offset + count))) [
        | inl done ↦ rw (
          done,
          take_all count (drop offset returned)
              (omega (arith, length-drop offset returned, reached done)),
        )
        | inr more ↦
            rw
              (
                more,
                drain_lem fuel returned (offset + count) (left more).0 (left more).1,
                ← drop-drop offset count returned,
              )
              (ap some (take-append-drop count (drop offset returned)))
      ]
    where
      count : ℕ
      count = min standard_vector_size (length returned - offset)

      reached : leb (length returned) (offset + count) ≡ true → length returned ≤ offset + count
      reached h = ground arith

      left :
          leb (length returned) (offset + count) ≡ false
          → (offset + count ≤ length returned)
            × (length returned < offset + count + fuel * standard_vector_size)
      left h = ground arith

  -- The engine's calls for the rows of RETURNING come to an end and give every kept row once, in
  -- order; as many calls are enough as fill more than all rows, 2048 to a call.
  pub drain-returned :
      (fuel : ℕ) (returned : List Row)
      → length returned < fuel * standard_vector_size
      → drain fuel returned 0 ≡ some returned
  drain-returned fuel returned enough = drain_lem fuel returned 0 (omega arith) (omega arith)
