-- ===== src/Mapping/Columns.antt =====
-- The tables from column names to JSON keys, for writing and for reading.
use duckdb_google_calendar.Common.{
  String, List, [], ◌∷◌, Option, none, some, ◌==◌, string_eq, if◌then◌else◌,
}

abbrev pub Keys : Type 0
Keys = List (String × String)

-- `m.find(name)` with `->second`; the source's tables hold each name once.
unfoldable pub find_key : String → Keys → Option String
find_key name [] = none
find_key name ((column, key) ∷ keys) = if name == column then some key else find_key name keys

abbrev pub writable_string_keys : Keys
writable_string_keys =
    ("summary", "summary")
    ∷ ("description", "description")
    ∷ ("location", "location")
    ∷ ("status", "status")
    ∷ ("color_id", "colorId")
    ∷ ("transparency", "transparency")
    ∷ ("visibility", "visibility")
    ∷ ("event_type", "eventType")
    ∷ []

abbrev pub writable_bool_keys : Keys
writable_bool_keys =
    ("anyone_can_add_self", "anyoneCanAddSelf")
    ∷ ("guests_can_invite_others", "guestsCanInviteOthers")
    ∷ ("guests_can_modify", "guestsCanModify")
    ∷ ("guests_can_see_other_guests", "guestsCanSeeOtherGuests")
    ∷ []

abbrev pub writable_json_keys : Keys
writable_json_keys =
    ("attendees", "attendees")
    ∷ ("recurrence", "recurrence")
    ∷ ("reminders", "reminders")
    ∷ ("conference_data", "conferenceData")
    ∷ ("extended_properties", "extendedProperties")
    ∷ ("source", "source")
    ∷ ("attachments", "attachments")
    ∷ ("working_location_properties", "workingLocationProperties")
    ∷ []

-- The tables of `ExtractField`.
abbrev pub string_keys : Keys
string_keys =
    ("event_id", "id")
    ∷ ("summary", "summary")
    ∷ ("description", "description")
    ∷ ("location", "location")
    ∷ ("status", "status")
    ∷ ("html_link", "htmlLink")
    ∷ ("created", "created")
    ∷ ("updated", "updated")
    ∷ ("color_id", "colorId")
    ∷ ("transparency", "transparency")
    ∷ ("visibility", "visibility")
    ∷ ("event_type", "eventType")
    ∷ ("recurring_event_id", "recurringEventId")
    ∷ ("ical_uid", "iCalUID")
    ∷ ("etag", "etag")
    ∷ ("kind", "kind")
    ∷ ("hangout_link", "hangoutLink")
    ∷ []

abbrev pub raw_keys : Keys
raw_keys =
    ("attendees", "attendees")
    ∷ ("recurrence", "recurrence")
    ∷ ("reminders", "reminders")
    ∷ ("conference_data", "conferenceData")
    ∷ ("creator", "creator")
    ∷ ("organizer", "organizer")
    ∷ ("extended_properties", "extendedProperties")
    ∷ ("source", "source")
    ∷ ("attachments", "attachments")
    ∷ ("working_location_properties", "workingLocationProperties")
    ∷ ("out_of_office_properties", "outOfOfficeProperties")
    ∷ ("focus_time_properties", "focusTimeProperties")
    ∷ []

abbrev pub bool_keys : Keys
bool_keys =
    ("end_time_unspecified", "endTimeUnspecified")
    ∷ ("attendees_omitted", "attendeesOmitted")
    ∷ ("anyone_can_add_self", "anyoneCanAddSelf")
    ∷ ("guests_can_invite_others", "guestsCanInviteOthers")
    ∷ ("guests_can_modify", "guestsCanModify")
    ∷ ("guests_can_see_other_guests", "guestsCanSeeOtherGuests")
    ∷ ("private_copy", "privateCopy")
    ∷ ("locked", "locked")
    ∷ []
