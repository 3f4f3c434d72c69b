-- ===== src/Lifecycle.antt =====
-- src/lifecycle/session.cpp and src/detail/initialize_codec.cpp: the session and what is negotiated.
pub mod Capabilities
pub mod Codec
pub mod Session
