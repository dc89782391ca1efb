-- ===== src/Server/Session.antt =====
-- crates/openlink-server/src/acars.rs: the CPDLC session of one aircraft and its state machine. A
-- method on `&mut self` returns the new session beside its result.
pub mod Invariant
pub mod Slots
pub mod Handover
pub mod Views
use openlink.Prelude.{
  Text, Bool, true, false, ◌&&◌, Option, none, some, [], ◌=t◌, is_some_and, map_option, and_then,
  Done, ok, err, connect_without_logon, if◌then◌else◌,
}
use openlink.Models.Endpoint.{AcarsEndpointCallsign, AcarsRoutingEndpoint}
use openlink.Models.View.{
  CpdlcConnectionPhase, connected, logged_on, logon_pending, CpdlcConnectionView, CpdlcSessionView,
}

pub record CpdlcConnection : Type 0 where
  pub station : AcarsRoutingEndpoint
  pub logon : Bool
  pub connection : Bool

pub record CpdlcSession : Type 0 where
  pub aircraft : AcarsRoutingEndpoint
  pub active_connection : Option CpdlcConnection
  pub inactive_connection : Option CpdlcConnection
  pub next_data_authority : Option AcarsRoutingEndpoint

-- `CPDLCConnection::new`
abbrev pub new_connection : AcarsRoutingEndpoint → CpdlcConnection
new_connection station = record { station = station; logon = false; connection = false }

-- `CPDLCConnection::logon`
abbrev pub log_on : CpdlcConnection → CpdlcConnection
log_on c = record c { logon = true }

-- `CPDLCConnection::connect`
abbrev pub connect : CpdlcConnection → CpdlcConnection × Done
connect c =
    if c.logon then (record c { connection = true }, ok tt) else (c, err connect_without_logon)

abbrev pub ready_exchange : CpdlcConnection → Bool
ready_exchange c = c.logon && c.connection

-- `CPDLCSession::new`
abbrev pub new_session : AcarsRoutingEndpoint → CpdlcSession
new_session aircraft = record {
  aircraft = aircraft;
  active_connection = none;
  inactive_connection = none;
  next_data_authority = none;
}

abbrev pub is_with : AcarsEndpointCallsign → CpdlcConnection → Bool
is_with station c = c.station.callsign =t station

abbrev pub holds : AcarsEndpointCallsign → Option CpdlcConnection → Bool
holds station slot = is_some_and (is_with station) slot

-- A new connection takes the active slot if that is free, and else the inactive one.
abbrev pub place : CpdlcConnection → CpdlcSession → CpdlcSession
place c s = elim s.active_connection [
  | none ↦ record s { active_connection = some c }
  | some _ ↦ record s { inactive_connection = some c }
]

unfoldable pub logon_request : AcarsRoutingEndpoint → CpdlcSession → CpdlcSession × Done
logon_request station s = (place (new_connection station) s, ok tt)

unfoldable pub logon_accepted : AcarsEndpointCallsign → CpdlcSession → CpdlcSession × Done
logon_accepted station s =
    if holds station s.active_connection
    then (record s { active_connection = map_option log_on s.active_connection }, ok tt)
    else if holds station s.inactive_connection
    then (record s { inactive_connection = map_option log_on s.inactive_connection }, ok tt)
    else (s, ok tt)

abbrev pub is_authority : AcarsEndpointCallsign → Option AcarsRoutingEndpoint → Bool
is_authority station nda = is_some_and (λ (e : AcarsRoutingEndpoint). e.callsign =t station) nda

-- The endpoint that the server builds from a callsign alone.
abbrev pub bare_endpoint : AcarsEndpointCallsign → AcarsRoutingEndpoint
bare_endpoint callsign = record { callsign = callsign; address = [] }

unfoldable pub connection_request : AcarsEndpointCallsign → CpdlcSession → CpdlcSession × Done
connection_request station s =
    if holds station s.active_connection
    then (s, ok tt)
    else if holds station s.inactive_connection
    then (s, ok tt)
    else if is_authority station s.next_data_authority
    then (place (log_on (new_connection (bare_endpoint station))) s, ok tt)
    else (s, ok tt)

-- `conn.connect()?` on the connection of a slot.
abbrev connect_slot : Option CpdlcConnection → Option CpdlcConnection × Done
connect_slot none = (none, ok tt)
connect_slot (some c) = (some (connect c).0, (connect c).1)

unfoldable pub connection_accepted : AcarsEndpointCallsign → CpdlcSession → CpdlcSession × Done
connection_accepted station s =
    if holds station s.active_connection
    then (
      record s { active_connection = (connect_slot s.active_connection).0 },
      (connect_slot s.active_connection).1,
    )
    else if holds station s.inactive_connection
    then (
      record s { inactive_connection = (connect_slot s.inactive_connection).0 },
      (connect_slot s.inactive_connection).1,
    )
    else (s, ok tt)

unfoldable pub next_data_authority : AcarsRoutingEndpoint → CpdlcSession → CpdlcSession × Done
next_data_authority station s = (record s { next_data_authority = some station }, ok tt)

unfoldable pub termination_request : AcarsEndpointCallsign → CpdlcSession → CpdlcSession × Done
termination_request station s =
    if holds station s.active_connection
    then (record s { active_connection = s.inactive_connection; inactive_connection = none }, ok tt)
    else if holds station s.inactive_connection
    then (record s { inactive_connection = none }, ok tt)
    else (s, ok tt)

unfoldable pub phase : CpdlcConnection → CpdlcConnectionPhase
phase c = if c.connection then connected else if c.logon then logged_on else logon_pending

unfoldable pub to_view : AcarsEndpointCallsign → CpdlcConnection → CpdlcConnectionView
unfolding phase
to_view peer c = record { peer = peer; phase = phase c }

unfoldable pub to_aircraft_view : CpdlcSession → CpdlcSessionView
unfolding to_view
to_aircraft_view s = record {
  aircraft = some s.aircraft.callsign;
  aircraft_address = some s.aircraft.address;
  active_connection =
      map_option (λ (c : CpdlcConnection). to_view c.station.callsign c) s.active_connection;
  inactive_connection =
      map_option (λ (c : CpdlcConnection). to_view c.station.callsign c) s.inactive_connection;
  next_data_authority = map_option (λ (e : AcarsRoutingEndpoint). e.callsign) s.next_data_authority;
}

-- The closure `conn_to_view`: a connection with another station is hidden.
abbrev conn_to_view :
    AcarsEndpointCallsign → AcarsEndpointCallsign → CpdlcConnection → Option CpdlcConnectionView
unfolding to_view
conn_to_view station aircraft_callsign c =
    if is_with station c then some (to_view aircraft_callsign c) else none

unfoldable pub to_station_view : AcarsEndpointCallsign → CpdlcSession → CpdlcSessionView
unfolding to_view
to_station_view station s = record {
  aircraft = some s.aircraft.callsign;
  aircraft_address = some s.aircraft.address;
  active_connection = and_then (conn_to_view station s.aircraft.callsign) s.active_connection;
  inactive_connection = and_then (conn_to_view station s.aircraft.callsign) s.inactive_connection;
  next_data_authority = map_option (λ (e : AcarsRoutingEndpoint). e.callsign) s.next_data_authority;
}
