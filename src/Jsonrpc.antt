-- ===== src/Jsonrpc.antt =====
-- include/mcp/jsonrpc: the message types and the interface to the JSON library.
pub mod Json
pub mod Messages
pub mod Cancellation
pub mod Router
pub mod Inbound
