-- ===== src/Models/Endpoint.antt =====
-- crates/openlink-models/src/acars.rs, station.rs and network.rs: the identifiers of the parties.
-- Rust's one-field wrappers of `String` are texts.
use openlink.Prelude.{Text}

abbrev pub AcarsEndpointCallsign : Type 0
AcarsEndpointCallsign = Text

abbrev pub AcarsEndpointAddress : Type 0
AcarsEndpointAddress = Text

abbrev pub StationId : Type 0
StationId = Text

abbrev pub NetworkId : Type 0
NetworkId = Text

abbrev pub NetworkAddress : Type 0
NetworkAddress = Text

pub record AcarsRoutingEndpoint : Type 0 where
  pub callsign : AcarsEndpointCallsign
  pub address : AcarsEndpointAddress

pub data StationStatus : Type 0 where
  online offline : StationStatus

pub StationStatus-discrete : Discrete StationStatus
StationStatus-discrete = hlevel

pub data MetaMessage : Type 0 where
  station_status : StationId → StationStatus → AcarsRoutingEndpoint → MetaMessage

pub data OpenLinkRoutingEndpoint : Type 0 where
  server : NetworkId → OpenLinkRoutingEndpoint
  address : NetworkId → NetworkAddress → OpenLinkRoutingEndpoint

pub record OpenLinkRouting : Type 0 where
  pub source : OpenLinkRoutingEndpoint
  pub destination : OpenLinkRoutingEndpoint
