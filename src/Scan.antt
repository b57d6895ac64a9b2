-- ===== src/Scan.antt =====
-- The table function google_calendar_scan.
pub mod Filter
pub mod Init
pub mod Pages
