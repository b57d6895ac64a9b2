-- ===== src/Json/Laws.antt =====
-- Writes of members of an event, as steps of code that may throw.
use duckdb_google_calendar.Common.{
  String, true, Option, none, some, ◌≡◌, ◌⊎◌, ◌==◌, string_eq, if◌then◌else◌,
}
use duckdb_google_calendar.Common.Except.{Result, ok, json_call}
use duckdb_google_calendar.Json.{JsonLib, IsLawful}

module _ (J : JsonLib) where
  -- An event body: an object, or the null that the first write makes an object.
  abbrev pub IsBody : J.Json → Type 0
  IsBody j = (J.is_object j ≡ true) ⊎ (J.is_null j ≡ true)

  -- A step that leaves an object in which one member is as said, and the others are as before.
  abbrev pub Sets : J.Json → String → Option J.Json → Result J.Json → Type 0
  Sets j key v r =
      (j' : J.Json) × (r ≡ ok j')
      × (J.is_object j' ≡ true)
      × ((k : String) → J.member j' k ≡ (if k == key then v else J.member j k))

  module _ (L : IsLawful J) where
    pub put-Sets :
        (j : J.Json) (key : String) (v : J.Json)
        → IsBody j
        → Sets j key (some v) (json_call (J.put j key v))
    put-Sets j key v body =
        let (j', e, object) = L.put_total j key v body in
        (j', rw e, object, λ k. L.member-put j key v j' k e)

    pub remove-Sets :
        (j : J.Json) (key : String)
        → J.is_object j ≡ true
        → Sets j key none (json_call (J.remove j key))
    remove-Sets j key object =
        let (j', e, object') = L.remove_total j key object in
        (j', rw e, object', λ k. L.member-remove j key j' k e)
