-- ===== src/Hoppie.antt =====
-- crates/openlink-hoppie: the bridge to the Hoppie ACARS network.
pub mod Packet
pub mod Translator
pub mod Tracker
pub mod Poll
pub mod Bridge
