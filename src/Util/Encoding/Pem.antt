-- ===== src/Util/Encoding/Pem.antt =====
-- `NormalizePemKey` of src/calendar/util/encoding.cpp: each backslash with an `n` behind it becomes
-- a line feed.
use mathlib.Core.Option
use mathlib.Core.Path.{ap₂}
use duckdb_google_calendar.Common.{
  ℕ, zero, suc, ◌+◌, ◌<◌, ◌≤◌, [], ◌∷◌, ◌++◌, append_assoc, Option, none, some, Bytes, codes, ◌≡◌,
  ◌≢◌, refl, ◌∙◌, Bool, false, ◌&&◌, ◌==◌, nat_eq, if◌then◌else◌, arith, length, take, drop, find?,
  starts_with, length-append, length-drop, Bool-cases, inl, inr, Option-cases, ap, ◌⊎◌,
}

abbrev pub backslash_n : Bytes
backslash_n = b'\\' ∷ b'n' ∷ []

-- The loop from position `pos` on: `pos = find("\\n", pos)`, `replace(pos, 2, "\n")`, `pos += 1`.
-- Each round with a hit leaves less text behind `pos`, which bounds the rounds.
normalize_loop : ℕ → Bytes → ℕ → Bytes
normalize_loop zero pem pos = pem
normalize_loop (suc fuel) pem pos = elim (find? (drop pos pem) backslash_n) [
  | none ↦ pem
  | some k ↦
      normalize_loop fuel (take (pos + k) pem ++ (b'\n' ∷ drop (pos + k + 2) pem)) (pos + k + 1)
]

pub normalize_pem_key : Bytes → Bytes
unfolding normalize_loop
normalize_pem_key key = normalize_loop (suc (length key)) key 0

two_lines : normalize_pem_key (codes "a\\nb\\\\nc") ≡ codes "a\nb\\\nc"
unfolding normalize_pem_key find?
two_lines = refl

-- The specification: one pass over the text.
pub unescape_newlines : Bytes → Bytes
unescape_newlines [] = []
unescape_newlines (c ∷ []) = c ∷ []
unescape_newlines (c ∷ d ∷ s) =
    let hit = b'\n' ∷ unescape_newlines s in
    let miss = c ∷ unescape_newlines (d ∷ s) in if c == b'\\' && d == b'n' then hit else miss

abbrev is_hit : ℕ → ℕ → Bool
is_hit c d = c == b'\\' && d == b'n'

unescape_step :
    (c d : ℕ) (s : Bytes)
    → unescape_newlines (c ∷ d ∷ s)
      ≡ (if is_hit c d then b'\n' ∷ unescape_newlines s else c ∷ unescape_newlines (d ∷ s))
unfolding unescape_newlines
unescape_step c d s = refl

starts_with_step : (c d : ℕ) (s : Bytes) → starts_with (c ∷ d ∷ s) backslash_n ≡ is_hit c d
unfolding starts_with
starts_with_step c d [] = ground arith
starts_with_step c d (_ ∷ s) = ground arith

find_step :
    (c d : ℕ) (s : Bytes)
    → find? (c ∷ d ∷ s) backslash_n
      ≡ (if is_hit c d then some 0 else Option.map suc (find? (d ∷ s) backslash_n))
find_step c d s = rw (← starts_with_step c d s) (unfold find? in refl)

map-none : (o : Option ℕ) → Option.map suc o ≡ none → o ≡ none
map-none none h = refl
map-none (some k) h = cc

map-some : (o : Option ℕ) (k : ℕ) → Option.map suc o ≡ some k → (j : ℕ) × (o ≡ some j) × (k ≡ suc j)
map-some none k h = cc
map-some (some j) k h = (j, refl, ground arith)

find_short : (c k : ℕ) → find? (c ∷ []) backslash_n ≢ some k
unfolding find?
find_short c k h = ground arith

-- What `find` says of the pass.
find-none : (s : Bytes) → find? s backslash_n ≡ none → unescape_newlines s ≡ s
find-none [] h = unfold unescape_newlines in refl
find-none (c ∷ []) h = unfold unescape_newlines in refl
find-none (c ∷ d ∷ s) h = elim (Bool-cases (is_hit c d)) [
  | inl hit ↦ cc (rw (find_step c d s, hit) at h)
  | inr miss ↦
      rw (unescape_step, miss)
        (ap (λ (t : Bytes). c ∷ t)
          (find-none (d ∷ s) (map-none _ (rw (find_step c d s, miss) at h))))
]

abbrev Splits : Bytes → ℕ → Type 0
Splits s k =
    (unescape_newlines s ≡ take k s ++ (b'\n' ∷ unescape_newlines (drop (suc (suc k)) s)))
    × (k + 2 ≤ length s)

find-some : (s : Bytes) (k : ℕ) → find? s backslash_n ≡ some k → Splits s k
find-some [] k h = unfold find? in cc h
find-some (c ∷ []) k h = absurd (find_short c k h)
find-some (c ∷ d ∷ s) k h = elim (Bool-cases (is_hit c d)) [
  | inl hit ↦
      let e : k ≡ 0 = ground (arith, rw (find_step c d s, hit) at h) in
      rw e (rw (unescape_step, hit), omega arith)
  | inr miss ↦
      let (j, found, e) = map-some _ k (rw (find_step c d s, miss) at h) in
      let (same, fits) = find-some (d ∷ s) j found in
      rw e (rw (unescape_step, miss) (ap (λ (t : Bytes). c ∷ t) same), omega arith)
]

-- Positions behind a prefix.
drop-append : (p s : Bytes) (k : ℕ) → drop (length p + k) (p ++ s) ≡ drop k s
drop-append [] s k = rw (let e : 0 + k ≡ k = omega arith in e)
drop-append (c ∷ p) s k =
    rw (let e : suc (length p) + k ≡ suc (length p + k) = omega arith in e) (drop-append p s k)

take-append : (p s : Bytes) (k : ℕ) → take (length p + k) (p ++ s) ≡ p ++ take k s
take-append [] s k = rw (let e : 0 + k ≡ k = omega arith in e)
take-append (c ∷ p) s k =
    rw (let e : suc (length p) + k ≡ suc (length p + k) = omega arith in e)
      (ap (λ (t : Bytes). c ∷ t) (take-append p s k))

length-take_le : (s : Bytes) (k : ℕ) → k ≤ length s → length (take k s) ≡ k
length-take_le s zero h = refl
length-take_le [] (suc k) h = absurd (omega arith)
length-take_le (c ∷ s) (suc k) h = omega (arith, length-take_le s k)

-- One round of the loop behind a prefix that is done.
module _ (fuel : ℕ) (p s : Bytes) where
  drop-append_self : drop (length p) (p ++ s) ≡ s
  drop-append_self = rw (let e : length p ≡ length p + 0 = omega arith in e) (drop-append p s 0)

  round_none : find? s backslash_n ≡ none → normalize_loop (suc fuel) (p ++ s) (length p) ≡ p ++ s
  unfolding normalize_loop
  round_none h = rw (drop-append_self, h, normalize_loop)

  round_some :
      (k : ℕ)
      → find? s backslash_n ≡ some k
      → k + 2 ≤ length s
      → normalize_loop (suc fuel) (p ++ s) (length p) ≡ (
          let q : Bytes = p ++ (take k s ++ (b'\n' ∷ [])) in
          normalize_loop fuel (q ++ drop (suc (suc k)) s) (length q))
  unfolding normalize_loop
  round_some k h fits =
      rw (drop-append_self, h, normalize_loop)
        (ap₂ (normalize_loop fuel)
          (rw (take-append p s k, two_more, drop-append p s (suc (suc k))) (simp append_assoc))
          (rw
            (
              length-append p (take k s ++ (b'\n' ∷ [])),
              length-append (take k s) (b'\n' ∷ []),
              length-take_le s k (omega arith),
            )
            (omega arith)))
    where
      two_more : length p + k + 2 ≡ length p + suc (suc k)
      two_more = omega arith

-- The text before the position is done; what stands behind it is as in the pass.
normalize_loop_lem :
    (fuel : ℕ) (p s : Bytes)
    → length s < fuel
    → normalize_loop fuel (p ++ s) (length p) ≡ p ++ unescape_newlines s
normalize_loop_lem zero p s h = absurd (omega arith)
normalize_loop_lem (suc fuel) p s h = elim (Option-cases (find? s backslash_n)) [
  | inl done ↦ round_none fuel p s done ∙ rw (find-none s done)
  | inr (k, found) ↦
      let (same, fits) = find-some s k found in
      round_some fuel p s k found fits
      ∙ normalize_loop_lem fuel _ (drop (suc (suc k)) s)
          (omega (arith, length-drop (suc (suc k)) s))
      ∙ rw same (simp append_assoc)
]

-- The loop of `NormalizePemKey` comes to an end on every key, and what it makes of the key is one
-- pass that replaces each backslash with an `n` behind it by a line feed.
pub normalize_pem_key-unescape : (key : Bytes) → normalize_pem_key key ≡ unescape_newlines key
unfolding normalize_pem_key
normalize_pem_key-unescape key = normalize_loop_lem (suc (length key)) [] key (omega arith)

-- The first byte of a pass over some text: the text's own, or a line feed.
abbrev HasHead : ℕ → Bytes → Type 0
HasHead d t = (x : ℕ) × (rest : Bytes) × (t ≡ x ∷ rest) × ((x ≡ d) ⊎ (x ≡ b'\n'))

unescape-HasHead : (d : ℕ) (s : Bytes) → HasHead d (unescape_newlines (d ∷ s))
unescape-HasHead d [] = (d, [], unfold unescape_newlines in refl, inl refl)
unescape-HasHead d (e ∷ s) = elim (Bool-cases (is_hit d e)) [
  | inl hit ↦ (b'\n', unescape_newlines s, rw (unescape_step, hit), inr refl)
  | inr miss ↦ (d, unescape_newlines (e ∷ s), rw (unescape_step, miss), inl refl)
]

miss_head : (c d x : ℕ) → is_hit c d ≡ false → (x ≡ d) ⊎ (x ≡ b'\n') → is_hit c x ≡ false
miss_head c d x h (inl e) = rw e h
miss_head c d x h (inr e) = rw e (ground arith)

line_feed_miss : (x : ℕ) → is_hit b'\n' x ≡ false
line_feed_miss x = refl

find_behind :
    (c d : ℕ) (t : Bytes)
    → HasHead d t
    → is_hit c d ≡ false
    → find? t backslash_n ≡ none
    → find? (c ∷ t) backslash_n ≡ none
find_behind c d t (x, rest, e, from) miss h =
    rw (e, find_step, miss_head c d x miss from) (rw (rw e at h))

find_line_feed : (t : Bytes) → find? t backslash_n ≡ none → find? (b'\n' ∷ t) backslash_n ≡ none
find_line_feed [] h = unfold find? in refl
find_line_feed (x ∷ t) h = rw (find_step, h)

find-unescape : (s : Bytes) → find? (unescape_newlines s) backslash_n ≡ none
find-unescape [] = unfold unescape_newlines find? in refl
find-unescape (c ∷ []) = unfold unescape_newlines find? in ground arith
find-unescape (c ∷ d ∷ s) = elim (Bool-cases (is_hit c d)) [
  | inl hit ↦ rw (unescape_step, hit) (find_line_feed _ (find-unescape s))
  | inr miss ↦
      rw (unescape_step, miss)
        (find_behind c d _ (unescape-HasHead d s) miss (find-unescape (d ∷ s)))
]

-- A normalised key has no backslash with an `n` behind it, and normalising it once more changes
-- nothing.
pub normalize_pem_key_complete :
    (key : Bytes)
    → (find? (normalize_pem_key key) backslash_n ≡ none)
      × (normalize_pem_key (normalize_pem_key key) ≡ normalize_pem_key key)
normalize_pem_key_complete key = rw normalize_pem_key-unescape (find-unescape key, again)
  where
    again : normalize_pem_key (unescape_newlines key) ≡ unescape_newlines key
    again = normalize_pem_key-unescape _ ∙ find-none _ (find-unescape key)
