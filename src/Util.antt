-- ===== src/Util.antt =====
-- src/calendar/util: text encodings and the query string.
pub mod Encoding
pub mod Query
