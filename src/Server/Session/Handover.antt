-- ===== src/Server/Session/Handover.antt =====
-- crates/openlink-server/src/acars.rs: the transfer of an aircraft to the next data authority.
use openlink.Prelude.{◌≡◌, ◌≢◌, true, false, none, some, arith, =t_refl, =t_ne}
use openlink.Models.Endpoint.{AcarsRoutingEndpoint}
use openlink.Server.Session.{
  CpdlcConnection, CpdlcSession, holds, bare_endpoint, connection_request, connection_accepted,
  next_data_authority, termination_request,
}

-- UM160, then the next station's connection request and the aircraft's acceptance.
abbrev pub prepare_transfer : AcarsRoutingEndpoint → CpdlcSession → CpdlcSession
prepare_transfer nda s =
    (connection_accepted nda.callsign
      (connection_request nda.callsign (next_data_authority nda s).0).0).0

-- A station that holds neither slot is designated, requests the connection and is accepted: the
-- active connection stays as it was, and the designated station's is established in the inactive
-- slot. When the active station then ends the service, the aircraft's only connection is the
-- established one with the designated station.
pub transfer :
    (s : CpdlcSession) (c : CpdlcConnection) (nda : AcarsRoutingEndpoint)
    → s.active_connection ≡ some c
    → c.station.callsign ≢ nda.callsign
    → holds nda.callsign s.inactive_connection ≡ false
    → let established : CpdlcConnection = record {
      station = bare_endpoint nda.callsign;
      logon = true;
      connection = true;
    } in
      let t = prepare_transfer nda s in
      let u = (termination_request c.station.callsign t).0 in
      (t.active_connection ≡ some c)
      × (t.inactive_connection ≡ some established)
      × (u.active_connection ≡ some established)
      × (u.inactive_connection ≡ none)
unfolding next_data_authority connection_request connection_accepted termination_request
transfer s c nda e ne free =
    let n = nda.callsign in
    let d = =t_ne c.station.callsign n ne in
    let r = =t_refl n in
    let q = =t_refl c.station.callsign in (ground arith, ground arith, ground arith, ground arith)
