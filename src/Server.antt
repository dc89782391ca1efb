-- ===== src/Server.antt =====
-- crates/openlink-server: sessions, message handlers, the station registry.
pub mod Session
pub mod Kv
pub mod Handler
pub mod Registry
pub mod Termination
pub mod Routing
pub mod Presence
