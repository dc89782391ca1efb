-- ===== src/Models.antt =====
-- crates/openlink-models: the data that the other crates exchange.
pub mod Endpoint
pub mod Attribute
pub mod FlightLevel
pub mod Argument
pub mod Definition
pub mod Uplink
pub mod Downlink
pub mod Registry
pub mod View
pub mod Message
pub mod Dialogue
pub mod Consistency
pub mod Precedence
pub mod Builder
pub mod Payload
