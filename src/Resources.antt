-- ===== src/Resources.antt =====
-- src/calendar/resources and src/include/calendar/{client,util/response}.hpp: the calls of the API.
pub mod Base
pub mod Events
pub mod CalendarList
pub mod Calendars
pub mod Paths
