-- ===== src/Mapping.antt =====
-- src/include/storage/event_mapping.hpp: between rows of the events table and JSON events.
pub mod Times
pub mod Columns
pub mod Write
pub mod Read
pub mod RoundTrip
pub mod Rows
pub mod Ids
pub mod Emit
