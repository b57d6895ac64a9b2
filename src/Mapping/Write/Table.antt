-- ===== src/Mapping/Write/Table.antt =====
-- The writable columns as the README lists them, with the field of a Google event that each holds,
-- and how the tables of the code agree with that list and with one another.
use duckdb_google_calendar.Common.{
  String, Bool, true, false, not, ◌&&◌, ◌||◌, Option, none, some, Option-cases, Bool-cases, inl,
  inr, ◌≡◌, refl, ◌==◌, string_eq, [], ◌∷◌, arith, eq_iff, subst, sym, some-injective,
}
use duckdb_google_calendar.Mapping.Columns.{
  Keys, find_key, writable_string_keys, writable_bool_keys, writable_json_keys, string_keys,
  raw_keys, bool_keys,
}
use duckdb_google_calendar.Mapping.Write.Cases.{is_time}

abbrev pub writable_columns : Keys
writable_columns =
    ("event_id", "id")
    ∷ ("summary", "summary")
    ∷ ("description", "description")
    ∷ ("location", "location")
    ∷ ("status", "status")
    ∷ ("start", "start")
    ∷ ("end", "end")
    ∷ ("color_id", "colorId")
    ∷ ("transparency", "transparency")
    ∷ ("visibility", "visibility")
    ∷ ("event_type", "eventType")
    ∷ ("anyone_can_add_self", "anyoneCanAddSelf")
    ∷ ("guests_can_invite_others", "guestsCanInviteOthers")
    ∷ ("guests_can_modify", "guestsCanModify")
    ∷ ("guests_can_see_other_guests", "guestsCanSeeOtherGuests")
    ∷ ("attendees", "attendees")
    ∷ ("recurrence", "recurrence")
    ∷ ("reminders", "reminders")
    ∷ ("conference_data", "conferenceData")
    ∷ ("extended_properties", "extendedProperties")
    ∷ ("source", "source")
    ∷ ("attachments", "attachments")
    ∷ ("working_location_properties", "workingLocationProperties")
    ∷ []

abbrev pub is_some : Option String → Bool
is_some none = false
is_some (some _) = true

-- `all_day` is writable and has no field of its own; `event_id` is writable on INSERT only.
abbrev pub is_writable : Bool → String → Bool
is_writable update name =
    name == "all_day"
    || is_some (find_key name writable_columns) && not (update && name == "event_id")

-- The fields that a write of the column may change.
abbrev pub touches : String → String → Bool
touches name k =
    name == "all_day" && is_time k
    || elim (find_key name writable_columns) [ none ↦ false | some key ↦ k == key ]

-- A test at every entry of a table, and what it says of an entry that is found.
all_keys : (String → String → Bool) → Keys → Bool
all_keys p [] = true
all_keys p ((name, key) ∷ keys) = p name key && all_keys p keys

find-all_keys :
    (p : String → String → Bool) (keys : Keys) (name key : String)
    → all_keys p keys ≡ true
    → find_key name keys ≡ some key
    → p name key ≡ true
unfolding find_key all_keys
find-all_keys p [] name key _ h = cc
find-all_keys p ((column, k) ∷ keys) name key all h = elim (Bool-cases (name == column)) [
  | inl here ↦
      subst (λ n. p n key ≡ true) (sym ((eq_iff name column).0 here))
        (subst (λ k. p column k ≡ true) (some-injective k key (rw here at h)) (ground arith))
  | inr later ↦ find-all_keys p keys name key (ground arith) (rw later at h)
]

abbrev is_key : Option String → String → Bool
is_key none k = false
is_key (some j) k = j == k

key_of_is_key : (o : Option String) (k : String) → is_key o k ≡ true → o ≡ some k
key_of_is_key none k h = cc
key_of_is_key (some j) k h = rw ((eq_iff j k).0 h)

none_of_not : (o : Option String) → not (is_some o) ≡ true → o ≡ none
none_of_not none h = refl
none_of_not (some k) h = cc

-- Every entry of one table is an entry of the other, or none is.
module _ (keys others : Keys) where
  abbrev Within : Type 0
  Within = all_keys (λ n k. is_key (find_key n others) k) keys ≡ true

  abbrev Apart : Type 0
  Apart = all_keys (λ n k. not (is_some (find_key n others))) keys ≡ true

  find-Within :
      (name key : String) → Within → find_key name keys ≡ some key → find_key name others ≡ some key
  find-Within name key w h = key_of_is_key _ key (find-all_keys _ keys name key w h)

  find-Apart :
      (name key : String) → Apart → find_key name keys ≡ some key → find_key name others ≡ none
  find-Apart name key w h =
      none_of_not _ (find-all_keys (λ n k. not (is_some (find_key n others))) keys name key w h)

-- The columns that the code knows.
abbrev is_covered : String → Bool
is_covered n =
    n == "event_id"
    || is_some (find_key n writable_string_keys)
    || is_some (find_key n writable_bool_keys)
    || is_some (find_key n writable_json_keys)
    || is_time n

module _ (name key : String) where
  -- What a query writes as a string, a flag or JSON text is read by the reader of the same kind
  -- from the same field.
  pub read_text :
      find_key name writable_string_keys ≡ some key → find_key name string_keys ≡ some key
  unfolding find_key all_keys
  read_text = find-Within writable_string_keys string_keys name key refl

  pub read_flag :
      find_key name writable_bool_keys ≡ some key
      → (find_key name string_keys ≡ none)
        × (find_key name raw_keys ≡ none)
        × (find_key name bool_keys ≡ some key)
  read_flag h = (
    find-Apart writable_bool_keys string_keys name key (unfold find_key all_keys in refl) h,
    find-Apart writable_bool_keys raw_keys name key (unfold find_key all_keys in refl) h,
    find-Within writable_bool_keys bool_keys name key (unfold find_key all_keys in refl) h,
  )

  pub read_raw :
      find_key name writable_json_keys ≡ some key
      → (find_key name string_keys ≡ none) × (find_key name raw_keys ≡ some key)
  read_raw h = (
    find-Apart writable_json_keys string_keys name key (unfold find_key all_keys in refl) h,
    find-Within writable_json_keys raw_keys name key (unfold find_key all_keys in refl) h,
  )

  -- The tables of the code are parts of the README's.
  pub listed_text :
      find_key name writable_string_keys ≡ some key → find_key name writable_columns ≡ some key
  listed_text =
      find-Within writable_string_keys writable_columns name key (unfold find_key all_keys in refl)

  pub listed_flag :
      find_key name writable_bool_keys ≡ some key → find_key name writable_columns ≡ some key
  listed_flag =
      find-Within writable_bool_keys writable_columns name key (unfold find_key all_keys in refl)

  pub listed_raw :
      find_key name writable_json_keys ≡ some key → find_key name writable_columns ≡ some key
  listed_raw =
      find-Within writable_json_keys writable_columns name key (unfold find_key all_keys in refl)

  covered : find_key name writable_columns ≡ some key → is_covered name ≡ true
  covered =
      find-all_keys (λ n k. is_covered n) writable_columns name key
        (unfold find_key all_keys in refl)

-- A column of no table and of no name of its own is not listed.
pub not_listed :
    (name : String)
    → (name == "event_id") ≡ false
    → find_key name writable_string_keys ≡ none
    → find_key name writable_bool_keys ≡ none
    → find_key name writable_json_keys ≡ none
    → is_time name ≡ false
    → find_key name writable_columns ≡ none
not_listed name e s b j t = elim (Option-cases (find_key name writable_columns)) [
  | inl out ↦ out
  | inr (key, listed) ↦ absurd (clash (covered name key listed))
]
  where
    clash : is_covered name ≡ true → ⊥
    clash h = cc (rw (e, s, b, j, t) at h)

-- The columns with a name of their own.
pub listed_id : find_key "event_id" writable_columns ≡ some "id"
unfolding find_key
listed_id = refl

pub listed_time : (name : String) → is_time name ≡ true → find_key name writable_columns ≡ some name
listed_time name h = elim (Bool-cases (name == "start")) [
  | inl start ↦
      let e : name ≡ "start" = (eq_iff name "start").0 start in rw e (unfold find_key in refl)
  | inr other ↦
      let e : name ≡ "end" = (eq_iff name "end").0 (rw other at h) in rw e (unfold find_key in refl)
]

-- The field `id` is that of `event_id` alone.
pub touches-id : (name : String) → (name == "event_id") ≡ false → touches name "id" ≡ false
touches-id name e = elim (Option-cases (find_key name writable_columns)) [
  | inl out ↦ rw out (no_time (name == "all_day"))
  | inr (key, listed) ↦ rw listed (
      apart (name == "all_day") ("id" == key) (
        rw e at (
          find-all_keys (λ n k. n == "event_id" || not ("id" == k)) writable_columns name key
            (unfold find_key all_keys in refl) listed)))
]
  where
    no_time : (b : Bool) → (b && is_time "id" || false) ≡ false
    no_time b = ground arith

    apart : (b c : Bool) → (false || not c) ≡ true → (b && is_time "id" || c) ≡ false
    apart b c h = ground arith
