-- ===== src/Json/Assoc.antt =====
-- An implementation of the JSON interface over association lists, which meets the laws. The tests
-- run on it. Its texts are those of scalars; an array or an object is printed by its brackets.
use duckdb_google_calendar.Common.{
  String, Bytes, codes, Bool, true, false, List, [], ◌∷◌, ◌++◌, Option, none, some, ◌≡◌, refl, ◌⊎◌,
  ◌==◌, string_eq, bytes_eq, if◌then◌else◌, arith, eq_iff,
}
use duckdb_google_calendar.Common.Int.{ℤ, pos}
use duckdb_google_calendar.Json.{JsonLib, IsLawful}

mutual
  pub data Doc : Type 0 where
    nul : Doc
    str : Bytes → Doc
    bool : Bool → Doc
    int : ℤ → Doc
    arr : Docs → Doc
    obj : Fields → Doc

  pub data Docs : Type 0 where
    nil : Docs
    cons : Doc → Docs → Docs

  pub data Fields : Type 0 where
    end : Fields
    field : String → Doc → Fields → Fields

abbrev pub lookup_field : String → Fields → Option Doc
lookup_field k end = none
lookup_field k (field j v fs) = if k == j then some v else lookup_field k fs

abbrev pub insert_field : String → Doc → Fields → Fields
insert_field k v end = field k v end
insert_field k v (field j w fs) = if k == j then field k v fs else field j w (insert_field k v fs)

abbrev pub erase_field : String → Fields → Fields
erase_field k end = end
erase_field k (field j w fs) =
    let rest = erase_field k fs in if k == j then rest else field j w rest

abbrev docs : Docs → List Doc
docs nil = []
docs (cons v vs) = v ∷ docs vs

abbrev fields : Fields → List (String × Doc)
fields end = []
fields (field k v fs) = (k, v) ∷ fields fs

abbrev field_values : Fields → List Doc
field_values end = []
field_values (field k v fs) = v ∷ field_values fs

abbrev values : Doc → List Doc
values (arr vs) = docs vs
values (obj fs) = field_values fs
values nul = []
values v = v ∷ []

abbrev items : Doc → Option (List (String × Doc))
items (obj fs) = some (fields fs)
items nul = some []
items (arr nil) = some []
items _ = none

abbrev member : Doc → String → Option Doc
member (obj fs) k = lookup_field k fs
member _ k = none

abbrev as_string : Doc → Option Bytes
as_string (str s) = some s
as_string _ = none

abbrev as_bool : Doc → Option Bool
as_bool (bool b) = some b
as_bool _ = none

abbrev as_int : Doc → Option ℤ
as_int (int n) = some n
as_int _ = none

abbrev get_int : Doc → Option ℤ
get_int (int n) = some n
get_int (bool true) = some (pos 1)
get_int (bool false) = some (pos 0)
get_int _ = none

abbrev elements : Doc → Option (List Doc)
elements (arr vs) = some (docs vs)
elements _ = none

abbrev put : Doc → String → Doc → Option Doc
put (obj fs) k v = some (obj (insert_field k v fs))
put nul k v = some (obj (field k v end))
put _ k v = none

abbrev remove : Doc → String → Option Doc
remove (obj fs) k = some (obj (erase_field k fs))
remove _ k = none

abbrev is_null : Doc → Bool
is_null nul = true
is_null _ = false

abbrev is_object : Doc → Bool
is_object (obj fs) = true
is_object _ = false

abbrev dump : Doc → Bytes
dump nul = codes "null"
dump (str s) = b'"' ∷ (s ++ (b'"' ∷ []))
dump (bool true) = codes "true"
dump (bool false) = codes "false"
dump (int n) = codes "0"
dump (arr vs) = codes "[]"
dump (obj fs) = codes "{}"

abbrev parse : Bytes → Option Doc
parse s =
    if s == codes "null"
    then some nul
    else if s == codes "true"
    then some (bool true)
    else if s == codes "false"
    then some (bool false)
    else if s == codes "[]"
    then some (arr nil)
    else if s == codes "{}"
    then some (obj end)
    else none

abbrev pub assoc_json : JsonLib
assoc_json = record {
  Json = Doc;
  null = nul;
  from_string = str;
  from_bool = bool;
  from_int = int;
  is_null = is_null;
  is_object = is_object;
  member = member;
  as_string = as_string;
  as_bool = as_bool;
  as_int = as_int;
  get_int = get_int;
  elements = elements;
  values = values;
  items = items;
  put = put;
  remove = remove;
  parse = parse;
  dump = dump;
}

lookup-insert :
    (fs : Fields) (key : String) (v : Doc) (k : String)
    → lookup_field k (insert_field key v fs) ≡ (if k == key then some v else lookup_field k fs)
lookup-insert end key v k = refl
lookup-insert (field j w fs) key v k =
    ground (arith, eq_iff k j, eq_iff key j, eq_iff k key, lookup-insert fs key v k)

lookup-erase :
    (fs : Fields) (key k : String)
    → lookup_field k (erase_field key fs) ≡ (if k == key then none else lookup_field k fs)
lookup-erase end key k = ground arith
lookup-erase (field j w fs) key k =
    ground (arith, eq_iff k j, eq_iff key j, eq_iff k key, lookup-erase fs key k)

put_all :
    (j : Doc) (k : String) (v : Doc)
    → (is_object j ≡ true) ⊎ (is_null j ≡ true)
    → (j' : Doc) × (put j k v ≡ some j') × (is_object j' ≡ true)
put_all (obj fs) k v _ = (obj (insert_field k v fs), refl, refl)
put_all nul k v _ = (obj (field k v end), refl, refl)
put_all (str s) k v h = ground arith
put_all (bool s) k v h = ground arith
put_all (int s) k v h = ground arith
put_all (arr s) k v h = ground arith

member_put :
    (j : Doc) (key : String) (v j' : Doc) (k : String)
    → put j key v ≡ some j'
    → member j' k ≡ (if k == key then some v else member j k)
member_put (obj fs) key v j' k h = ground (arith, lookup-insert fs key v k)
member_put nul key v j' k h = ground arith
member_put (str s) key v j' k h = ground arith
member_put (bool s) key v j' k h = ground arith
member_put (int s) key v j' k h = ground arith
member_put (arr s) key v j' k h = ground arith

remove_all :
    (j : Doc) (k : String)
    → is_object j ≡ true
    → (j' : Doc) × (remove j k ≡ some j') × (is_object j' ≡ true)
remove_all (obj fs) k _ = (obj (erase_field k fs), refl, refl)
remove_all nul k h = ground arith
remove_all (str s) k h = ground arith
remove_all (bool s) k h = ground arith
remove_all (int s) k h = ground arith
remove_all (arr s) k h = ground arith

member_remove :
    (j : Doc) (key : String) (j' : Doc) (k : String)
    → remove j key ≡ some j'
    → member j' k ≡ (if k == key then none else member j k)
member_remove (obj fs) key j' k h = ground (arith, lookup-erase fs key k)
member_remove nul key j' k h = ground arith
member_remove (str s) key j' k h = ground arith
member_remove (bool s) key j' k h = ground arith
member_remove (int s) key j' k h = ground arith
member_remove (arr s) key j' k h = ground arith

pub assoc_json-IsLawful : IsLawful assoc_json
assoc_json-IsLawful = record {
  put_total = put_all;
  member-put = member_put;
  remove_total = remove_all;
  member-remove = member_remove;
  null_is_null = refl;
  member-null = λ k. refl;
  string_not_null = λ s. refl;
  as_string-from_string = λ s. refl;
  as_bool-from_bool = λ b. refl;
}
