-- ===== src/Json.antt =====
-- nlohmann::json, which the source keeps under third_party and only calls: its values and the calls
-- of them that are made, as an interface. An exception of the library is `none`.
pub mod Assoc
pub mod Laws
pub mod Log
use duckdb_google_calendar.Common.{
  String, Bytes, Bool, true, false, List, Option, none, some, ◌≡◌, ◌⊎◌, ◌==◌, string_eq,
  if◌then◌else◌,
}
use duckdb_google_calendar.Common.Int.{ℤ}

pub record JsonLib : Type 1 where
  pub Json : Type 0
  -- `json()`, and the values made from a string, a truth value and an integer.
  pub null : Json
  pub from_string : Bytes → Json
  pub from_bool : Bool → Json
  pub from_int : ℤ → Json
  pub is_null : Json → Bool
  pub is_object : Json → Bool
  -- `j.contains(key)` with `j[key]`; `none` also where `j` is no object.
  pub member : Json → String → Option Json
  -- `is_string`, `is_boolean`, `is_number_integer` with the `get` of that type.
  pub as_string : Json → Option Bytes
  pub as_bool : Json → Option Bool
  pub as_int : Json → Option ℤ
  -- `get<int>`, which converts any number and any truth value; `none` where it throws.
  pub get_int : Json → Option ℤ
  -- `is_array` with its elements.
  pub elements : Json → Option (List Json)
  -- What a range-based `for` goes over: the elements of an array, the values of an object, nothing
  -- for a null, and any other value itself.
  pub values : Json → List Json
  -- The keys and values that iterators go over; `none` where `key()` throws.
  pub items : Json → Option (List (String × Json))
  -- `j[key] = v`, which throws unless `j` is an object or null, and `j.erase(key)`, which throws
  -- unless it is an object.
  pub put : Json → String → Json → Option Json
  pub remove : Json → String → Option Json
  pub parse : Bytes → Option Json
  pub dump : Json → Bytes

-- The documented behaviour that the properties rely on.
pub record IsLawful (J : JsonLib) : Type 0 where
  pub put_total :
      (j : J.Json) (key : String) (v : J.Json)
      → (J.is_object j ≡ true) ⊎ (J.is_null j ≡ true)
      → (j' : J.Json) × (J.put j key v ≡ some j') × (J.is_object j' ≡ true)
  pub member-put :
      (j : J.Json) (key : String) (v j' : J.Json) (k : String)
      → J.put j key v ≡ some j'
      → J.member j' k ≡ (if k == key then some v else J.member j k)
  pub remove_total :
      (j : J.Json) (key : String)
      → J.is_object j ≡ true
      → (j' : J.Json) × (J.remove j key ≡ some j') × (J.is_object j' ≡ true)
  pub member-remove :
      (j : J.Json) (key : String) (j' : J.Json) (k : String)
      → J.remove j key ≡ some j'
      → J.member j' k ≡ (if k == key then none else J.member j k)
  pub null_is_null : J.is_null J.null ≡ true
  pub member-null : (k : String) → J.member J.null k ≡ none
  pub string_not_null : (s : Bytes) → J.is_null (J.from_string s) ≡ false
  pub as_string-from_string : (s : Bytes) → J.as_string (J.from_string s) ≡ some s
  pub as_bool-from_bool : (b : Bool) → J.as_bool (J.from_bool b) ≡ some b
