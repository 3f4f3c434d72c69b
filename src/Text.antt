-- ===== src/Text.antt =====
-- include/mcp/detail: text helpers. A text is the list of its bytes.
pub mod Base64Url
pub mod Ascii
