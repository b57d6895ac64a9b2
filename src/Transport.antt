-- ===== src/Transport.antt =====
-- src/calendar/transport: requests and responses, the client interface, and the clients.
pub mod HttpType
pub mod Retry
pub mod Factory
pub mod Mock
pub mod Url
pub mod HttpLib
pub mod Proxy
