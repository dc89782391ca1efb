-- ===== src/Server/Session/Views.antt =====
-- crates/openlink-server/src/acars.rs: what the two views of a session show.
use openlink.Prelude.{◌≡◌, none, arith, map_option, if◌then◌else◌}
use openlink.Models.Endpoint.{AcarsEndpointCallsign}
use openlink.Models.View.{CpdlcConnectionView}
use openlink.Server.Session.{CpdlcSession, holds, to_aircraft_view, to_station_view}

abbrev with_peer : AcarsEndpointCallsign → CpdlcConnectionView → CpdlcConnectionView
with_peer peer v = record v { peer = peer }

-- The view of a station shows a slot exactly if the station holds it, with the phase that the
-- aircraft is shown and with the aircraft as the peer; a connection with another station is hidden.
pub to_station_view-to_aircraft_view :
    (c : AcarsEndpointCallsign) (s : CpdlcSession)
    → let a = to_aircraft_view s in
      let v = to_station_view c s in
      let own = with_peer s.aircraft.callsign in
      (v.active_connection
        ≡ (if holds c s.active_connection then map_option own a.active_connection else none))
      × (v.inactive_connection
          ≡ (if holds c s.inactive_connection then map_option own a.inactive_connection else none))
      × (v.next_data_authority ≡ a.next_data_authority)
unfolding to_station_view to_aircraft_view
to_station_view-to_aircraft_view c s = (ground arith, ground arith, ground arith)
