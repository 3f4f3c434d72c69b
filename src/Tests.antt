-- ===== src/Tests.antt =====
-- Runs of the models on concrete inputs.
pub mod Sample
mod Requests
mod Inbound
mod Servers
mod Headers
mod Streams
mod TaskStore
mod TaskRequests
mod Sessions
mod Texts
