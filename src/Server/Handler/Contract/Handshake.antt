-- ===== src/Server/Handler/Contract/Handshake.antt =====
-- crates/openlink-server/src/acars.rs: the messages that establish a connection.
use openlink.Prelude.{
  ◌≡◌, Text, true, Option, none, some, =t_refl, and_then, is_some, arith, Bool, false,
}
use openlink.Models.Endpoint.{AcarsEndpointCallsign, AcarsRoutingEndpoint}
use openlink.Models.Message.{
  CpdlcMetaMessage, logon_response, connection_response, meta, cpdlc, AcarsEnvelope,
}
use openlink.Server.Session
use openlink.Server.Session.{CpdlcConnection, CpdlcSession, bare_endpoint}
use openlink.Server.Handler.Contract.{Sessions, promise}

abbrev pub active : Sessions → Text → Option CpdlcConnection
active sessions id = and_then (λ (x : CpdlcSession). x.active_connection) (sessions id)

abbrev pub meta_between :
    AcarsRoutingEndpoint
    → AcarsEndpointCallsign
    → AcarsEndpointCallsign
    → CpdlcMetaMessage
    → AcarsEnvelope
meta_between aircraft source destination message = record {
  aircraft = aircraft;
  message = cpdlc (record { source = source; destination = destination; message = meta message });
}

abbrev pub stage : AcarsEndpointCallsign → (logon connection : Bool) → CpdlcConnection
stage station logon connection = record {
  station = bare_endpoint station;
  logon = logon;
  connection = connection;
}

module _ (aircraft : AcarsRoutingEndpoint) (station : AcarsEndpointCallsign)
    (sessions : Sessions) where
  pub logon_request-active :
      (origin destination : Text)
      → active sessions aircraft.address ≡ none
      → let p =
          promise
            (meta_between aircraft aircraft.callsign station
              (CpdlcMetaMessage.logon_request station origin destination))
            sessions in
        (active p.0 aircraft.address ≡ some (stage station false false)) × (is_some p.1 ≡ true)
  unfolding Session.logon_request
  logon_request-active origin destination h = let q = =t_refl aircraft.address in ground arith

  pub logon_response-active :
      active sessions aircraft.address ≡ some (stage station false false)
      → let p =
          promise
            (meta_between aircraft station aircraft.callsign (logon_response true))
            sessions in
        (active p.0 aircraft.address ≡ some (stage station true false)) × (is_some p.1 ≡ true)
  unfolding Session.logon_accepted
  logon_response-active h =
      let q = =t_refl aircraft.address in let r = =t_refl station in ground arith

  pub connection_request-active :
      active sessions aircraft.address ≡ some (stage station true false)
      → let p =
          promise
            (meta_between aircraft station aircraft.callsign CpdlcMetaMessage.connection_request)
            sessions in
        (active p.0 aircraft.address ≡ some (stage station true false)) × (is_some p.1 ≡ true)
  unfolding Session.connection_request
  connection_request-active h =
      let q = =t_refl aircraft.address in let r = =t_refl station in ground arith

  pub connection_response-active :
      active sessions aircraft.address ≡ some (stage station true false)
      → let p =
          promise
            (meta_between aircraft aircraft.callsign station (connection_response true))
            sessions in
        (active p.0 aircraft.address ≡ some (stage station true true)) × (is_some p.1 ≡ true)
  unfolding Session.connection_accepted
  connection_response-active h =
      let q = =t_refl aircraft.address in let r = =t_refl station in ground arith
