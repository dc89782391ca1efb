-- ===== src/Sdk.antt =====
-- crates/openlink-sdk: the rules that clients share.
pub mod Subjects
pub mod Runtime
pub mod Sequence
pub mod Client
