-- ===== src/Dml.antt =====
-- The sinks of INSERT, UPDATE and DELETE.
pub mod Sink
pub mod Merge
pub mod Plan
pub mod Init
pub mod Source
pub mod Insert
pub mod Update
pub mod Delete
pub mod Service
pub mod Statement
