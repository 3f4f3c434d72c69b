-- ===== src/Http.antt =====
-- include/mcp/http: server-sent events.
pub mod EventId
pub mod Events
pub mod Headers
pub mod Validation
pub mod HeaderState
pub mod Streams
pub mod Routing
