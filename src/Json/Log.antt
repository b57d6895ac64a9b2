-- ===== src/Json/Log.antt =====
-- A second implementation of the JSON interface, which meets the laws, and in which every value is
-- its own text: an object is the list of the writes that made it, the last one first. The tests
-- that need texts which are read as they were printed run on it. It has no arrays, and does not
-- list the members of an object.
use Prim.Native.Char.{code}
use text.Mathlib.TextEquality.{Char-path}
use duckdb_google_calendar.Common.{
  ℕ, zero, suc, ◌≤◌, String, Bytes, codes, Bool, true, false, [], ◌∷◌, ◌++◌, Option, none, some,
  ◌≡◌, refl, ap, ◌⊎◌, inl, inr, ◌==◌, nat_eq, ◌||◌, string_eq, bytes_eq, if◌then◌else◌, arith,
  length, length-append, take, drop, Bool-cases, some-injective, ◌∙◌,
}
use duckdb_google_calendar.Common.Int.{ℤ, pos, negsuc}
use duckdb_google_calendar.Json.{JsonLib, IsLawful}

codes-injective : (s t : String) → codes s ≡ codes t → s ≡ t
codes-injective String.[] String.[] h = refl
codes-injective String.[] (String.◌∷◌ d t) h = cc
codes-injective (String.◌∷◌ c s) String.[] h = cc
codes-injective (String.◌∷◌ c s) (String.◌∷◌ d t) h =
    let first : code c ≡ code d = cc in
    let rest : codes s ≡ codes t = cc in
    λ i. String.◌∷◌ (Char-path c d first i) (codes-injective s t rest i)

same_test : (s t : String) → (codes s == codes t) ≡ (s == t)
same_test s t = elim (Bool-cases (codes s == codes t)) [
  | inl same ↦ rw (
    same,
    (string_eq.beq_iff s t).1 (codes-injective s t ((bytes_eq.beq_iff (codes s) (codes t)).0 same)),
  )
  | inr other ↦ elim (Bool-cases (s == t)) [
    | inl same ↦
        let yes_same : (codes s == codes t) ≡ true =
          (bytes_eq.beq_iff (codes s) (codes t)).1 (ap codes ((string_eq.beq_iff s t).0 same)) in
        absurd cc
    | inr apart ↦ rw (other, apart)
  ]
]

-- An entry: whether the key was erased, the key and the value with their lengths, and older ones.
write : ℕ → Bytes → Bytes → Bytes → Bytes
write kept key v older = kept ∷ length key ∷ (key ++ (length v ∷ (v ++ older)))

-- The value behind a key, and what is left.
step : ℕ → Bool → (Bytes → Option Bytes) → Bytes → Option Bytes
step kept same later [] = none
step kept same later (m ∷ rest) =
    if same then (if kept == 0 then none else some (take m rest)) else later (drop m rest)

find : ℕ → Bytes → Bytes → Option Bytes
find zero entries k = none
find (suc fuel) [] k = none
find (suc fuel) (kept ∷ []) k = none
find (suc fuel) (kept ∷ n ∷ rest) k =
    step kept (k == take n rest) (λ e. find fuel e k) (drop n rest)

take-append : (xs ys : Bytes) → take (length xs) (xs ++ ys) ≡ xs
take-append [] ys = refl
take-append (x ∷ xs) ys = rw (take-append xs ys)

drop-append : (xs ys : Bytes) → drop (length xs) (xs ++ ys) ≡ ys
drop-append [] ys = refl
drop-append (x ∷ xs) ys = drop-append xs ys

length-drop-le : (n : ℕ) (xs : Bytes) → length (drop n xs) ≤ length xs
length-drop-le zero xs = omega arith
length-drop-le (suc n) [] = omega arith
length-drop-le (suc n) (x ∷ xs) = omega (arith, length-drop-le n xs)

find-write :
    (fuel kept : ℕ) (key v older k : Bytes)
    → find (suc fuel) (write kept key v older) k
      ≡ (if k == key then (if kept == 0 then none else some v) else find fuel older k)
unfolding find write
find-write fuel kept key v older k =
    rw (take-append key (length v ∷ (v ++ older)), drop-append key (length v ∷ (v ++ older)))
      (unfold step in rw (take-append v older, drop-append v older))

step-agree :
    (kept : ℕ) (same : Bool) (f g : Bytes → Option Bytes) (r : Bytes)
    → ((e : Bytes) → length e ≤ length r → f e ≡ g e)
    → step kept same f r ≡ step kept same g r
unfolding step
step-agree kept same f g [] agree = refl
step-agree kept same f g (m ∷ r) agree =
    rw (agree (drop m r) (let le = length-drop-le m r in omega arith))

older_shorter : (kept : ℕ) (key v older : Bytes) → length older ≤ length (write kept key v older)
unfolding write
older_shorter kept key v older =
    omega (arith, length-append key (length v ∷ (v ++ older)), length-append v older)

-- More fuel than entries changes nothing.
find_fuel :
    (f g : ℕ) (entries k : Bytes)
    → length entries ≤ f
    → length entries ≤ g
    → find f entries k ≡ find g entries k
unfolding find
find_fuel zero zero entries k hf hg = refl
find_fuel zero (suc g) [] k hf hg = refl
find_fuel zero (suc g) (x ∷ xs) k hf hg = absurd (omega arith)
find_fuel (suc f) zero [] k hf hg = refl
find_fuel (suc f) zero (x ∷ xs) k hf hg = absurd (omega arith)
find_fuel (suc f) (suc g) [] k hf hg = refl
find_fuel (suc f) (suc g) (x ∷ []) k hf hg = refl
find_fuel (suc f) (suc g) (kept ∷ n ∷ rest) k hf hg =
    step-agree kept (k == take n rest) (λ e. find f e k) (λ e. find g e k) (drop n rest)
      λ e shorter.
        find_fuel f g e k (omega (arith, length-drop-le n rest))
          (omega (arith, length-drop-le n rest))

-- The kinds of values are told apart by the first number.
abbrev is_object : Bytes → Bool
is_object [] = false
is_object (kind ∷ _) = kind == 3

abbrev is_null : Bytes → Bool
is_null [] = false
is_null (kind ∷ _) = kind == 0

abbrev as_string : Bytes → Option Bytes
as_string [] = none
as_string (kind ∷ s) = if kind == 1 then some s else none

abbrev as_bool : Bytes → Option Bool
as_bool [] = none
as_bool (kind ∷ []) = none
as_bool (kind ∷ b ∷ _) = if kind == 2 then some (b == 1) else none

abbrev as_int : Bytes → Option ℤ
as_int [] = none
as_int (kind ∷ []) = none
as_int (kind ∷ n ∷ _) =
    if kind == 4 then some (pos n) else if kind == 5 then some (negsuc n) else none

abbrev entries : Bytes → Bytes
entries [] = []
entries (kind ∷ s) = if kind == 3 then s else []

abbrev from_int : ℤ → Bytes
from_int (pos n) = 4 ∷ n ∷ []
from_int (negsuc n) = 5 ∷ n ∷ []

unfoldable pub member : Bytes → String → Option Bytes
unfolding find step
member j k = if is_object j then find (length (entries j)) (entries j) (codes k) else none

unfoldable pub put : Bytes → String → Bytes → Option Bytes
unfolding write
put j key v =
    if is_object j || is_null j then some (3 ∷ write 1 (codes key) v (entries j)) else none

unfoldable pub remove : Bytes → String → Option Bytes
unfolding write
remove j key = if is_object j then some (3 ∷ write 0 (codes key) [] (entries j)) else none

abbrev pub log_json : JsonLib
log_json = record {
  Json = Bytes;
  null = 0 ∷ [];
  from_string = λ s. 1 ∷ s;
  from_bool = λ b. 2 ∷ (if b then 1 else 0) ∷ [];
  from_int = from_int;
  is_null = is_null;
  is_object = is_object;
  member = member;
  as_string = as_string;
  as_bool = as_bool;
  as_int = as_int;
  get_int = as_int;
  elements = λ j. none;
  values = λ j. [];
  items = λ j. none;
  put = put;
  remove = remove;
  parse = λ s. some s;
  dump = λ j. j;
}

-- What is found behind one more write.
member-written :
    (kept : ℕ) (key : String) (v older : Bytes) (k : String)
    → member (3 ∷ write kept (codes key) v older) k ≡ (
        if k == key
        then (if kept == 0 then none else some v)
        else find (length older) older (codes k))
unfolding member
member-written kept key v older k =
    let all = write kept (codes key) v older in
    find_fuel (length all) (suc (length all)) all (codes k) (omega arith) (omega arith)
    ∙ find-write (length all) kept (codes key) v older (codes k)
    ∙ rw (
      same_test k key,
      find_fuel (length all) (length older) older (codes k) (older_shorter kept (codes key) v older)
          (omega arith),
    )

put_all :
    (j : Bytes) (key : String) (v : Bytes)
    → (is_object j ≡ true) ⊎ (is_null j ≡ true)
    → (j' : Bytes) × (put j key v ≡ some j') × (is_object j' ≡ true)
unfolding put
put_all j key v (inl object) = (3 ∷ write 1 (codes key) v (entries j), rw object, refl)
put_all j key v (inr null) = (3 ∷ write 1 (codes key) v (entries j), ground arith, refl)

-- A null has no members, and no entries.
null_empty :
    (j : Bytes) (k : Bytes) → is_object j ≡ false → find (length (entries j)) (entries j) k ≡ none
unfolding find
null_empty [] k h = refl
null_empty (kind ∷ s) k h = rw h

member_entries :
    (j : Bytes) (k : String) → find (length (entries j)) (entries j) (codes k) ≡ member j k
unfolding member
member_entries j k = elim (Bool-cases (is_object j)) [
  | inl object ↦ rw object
  | inr other ↦ rw (other, null_empty j (codes k) other)
]

member_put :
    (j : Bytes) (key : String) (v j' : Bytes) (k : String)
    → put j key v ≡ some j'
    → member j' k ≡ (if k == key then some v else member j k)
unfolding put
member_put j key v j' k h = elim (Bool-cases (is_object j || is_null j)) [
  | inl body ↦
      let e : 3 ∷ write 1 (codes key) v (entries j) ≡ j' = some-injective _ _ (rw body at h) in
      rw (← e, member-written 1 key v (entries j) k, member_entries j k)
  | inr other ↦ let e : ◌≡◌ {A = Option Bytes} none (some j') = rw other at h in absurd cc
]

remove_all :
    (j : Bytes) (k : String)
    → is_object j ≡ true
    → (j' : Bytes) × (remove j k ≡ some j') × (is_object j' ≡ true)
unfolding remove
remove_all j k object = (3 ∷ write 0 (codes k) [] (entries j), rw object, refl)

member_remove :
    (j : Bytes) (key : String) (j' : Bytes) (k : String)
    → remove j key ≡ some j'
    → member j' k ≡ (if k == key then none else member j k)
unfolding remove
member_remove j key j' k h = elim (Bool-cases (is_object j)) [
  | inl body ↦
      let e : 3 ∷ write 0 (codes key) [] (entries j) ≡ j' = some-injective _ _ (rw body at h) in
      rw (← e, member-written 0 key [] (entries j) k, member_entries j k)
  | inr other ↦ let e : ◌≡◌ {A = Option Bytes} none (some j') = rw other at h in absurd cc
]

as_bool_of : (b : Bool) → as_bool (2 ∷ (if b then 1 else 0) ∷ []) ≡ some b
as_bool_of true = refl
as_bool_of false = refl

pub log_json-IsLawful : IsLawful log_json
log_json-IsLawful = record {
  put_total = put_all;
  member-put = member_put;
  remove_total = remove_all;
  member-remove = member_remove;
  null_is_null = refl;
  member-null = λ k. unfold member in refl;
  string_not_null = λ s. refl;
  as_string-from_string = λ s. refl;
  as_bool-from_bool = as_bool_of;
}
