-- ===== src/Sdk/Client/Establish.antt =====
-- crates/openlink-sdk/src/client.rs and crates/openlink-server/src/acars.rs: a connection from the
-- first helper call to the session that the server stores.
use openlink.Prelude.{
  ◌≡◌, ap, ◌∙◌, text, true, Option, none, some, List, [], ◌∷◌, map, and_then, is_some,
}
use openlink.Models.Endpoint.{AcarsEndpointCallsign, AcarsRoutingEndpoint}
use openlink.Models.Message.{
  CpdlcMetaMessage, logon_response, AcarsEnvelope, OpenLinkMessage, acars, meta_message,
  OpenLinkEnvelope,
}
use openlink.Server.Session.{CpdlcSession}
use openlink.Server.Kv.{Kv}
use openlink.Server.Handler.Contract.{Sessions, Outcome, promise, promises}
use openlink.Server.Handler.Contract.Refine.{Works}
use openlink.Server.Handler.Contract.Runs.{handle_all, handle_all-promises}
use openlink.Server.Handler.Contract.Handshake.{
  active, stage, meta_between, logon_request-active, logon_response-active,
  connection_request-active, connection_response-active,
}
use openlink.Sdk.Sequence.{MinSequences}
use openlink.Sdk.Client.{
  ClientCall, requests_logon, answers_logon, requests_connection, answers_connection, perform,
  cpdlc_logon_request, cpdlc_logon_response, cpdlc_connection_request, cpdlc_connection_response,
}

abbrev pub acars_of : OpenLinkMessage → Option AcarsEnvelope
acars_of (acars a) = some a
acars_of (meta_message m) = none

abbrev pub keep : Option AcarsEnvelope → List AcarsEnvelope → List AcarsEnvelope
keep none rest = rest
keep (some a) rest = a ∷ rest

-- The ACARS messages that calls of one client build, in order.
unfoldable pub built_by : List ClientCall → MinSequences → List AcarsEnvelope
built_by [] m = []
built_by (call ∷ calls) m =
    let (m', message) = perform call m in keep (and_then acars_of message) (built_by calls m')

-- An aircraft and a station establish a connection.
abbrev pub establishing : AcarsRoutingEndpoint → AcarsEndpointCallsign → List ClientCall
establishing aircraft station =
    requests_logon aircraft.callsign aircraft.address station
    ∷ answers_logon station aircraft.callsign aircraft.address true
    ∷ requests_connection station aircraft.callsign aircraft.address
    ∷ answers_connection aircraft.callsign aircraft.address station true
    ∷ []

establishing-promises :
    (aircraft : AcarsRoutingEndpoint) (station : AcarsEndpointCallsign) (m : MinSequences)
    (sessions : Sessions)
    → active sessions aircraft.address ≡ none
    → let p = promises (built_by (establishing aircraft station) m) sessions in
      (active p.0 aircraft.address ≡ some (stage station true true))
      × (map is_some p.1 ≡ true ∷ true ∷ true ∷ true ∷ [])
unfolding promises built_by perform cpdlc_logon_request cpdlc_logon_response
    cpdlc_connection_request cpdlc_connection_response
establishing-promises aircraft station m sessions h =
    let zzzz = text "ZZZZ" in
    let callsign = aircraft.callsign in
    let s1 =
      (promise
        (meta_between aircraft callsign station (CpdlcMetaMessage.logon_request station zzzz zzzz))
        sessions).0 in
    let s2 = (promise (meta_between aircraft station callsign (logon_response true)) s1).0 in
    let s3 =
      (promise (meta_between aircraft station callsign CpdlcMetaMessage.connection_request) s2).0 in
    let (h1, o1) = logon_request-active aircraft station sessions zzzz zzzz h in
    let (h2, o2) = logon_response-active aircraft station s1 h1 in
    let (h3, o3) = connection_request-active aircraft station s2 h2 in
    let (h4, o4) = connection_response-active aircraft station s3 h3 in
    (h4, λ i. o1 i ∷ o2 i ∷ o3 i ∷ o4 i ∷ [])

module _ {S : Type 0} (kv : Kv S CpdlcSession) where
  -- Over a store that works, when an aircraft whose session has no active connection, or that has no
  -- session, and a station call the helpers for a logon, its acceptance, a connection request and
  -- its acceptance, and the server handles the messages that these build in that order, whatever the
  -- envelopes around them, then every message is forwarded, and the stored session has the station
  -- as its active connection, logged on and connected.
  pub establishing-handle_all :
      (works : Works kv) (wrap : AcarsEnvelope → OpenLinkEnvelope) (aircraft : AcarsRoutingEndpoint)
      (station : AcarsEndpointCallsign) (m : MinSequences) (s : S)
      → active (kv.view s) aircraft.address ≡ none
      → let p =
          handle_all kv
            (map (λ (a : AcarsEnvelope). (a, wrap a)) (built_by (establishing aircraft station) m))
            s in
        (active (kv.view p.0) aircraft.address ≡ some (stage station true true))
        × (map is_some p.1 ≡ true ∷ true ∷ true ∷ true ∷ [])
  unfolding built_by perform cpdlc_logon_request cpdlc_logon_response cpdlc_connection_request
      cpdlc_connection_response
  establishing-handle_all works wrap aircraft station m s h =
      let messages =
        map (λ (a : AcarsEnvelope). (a, wrap a)) (built_by (establishing aircraft station) m) in
      let (w, o) = handle_all-promises kv works messages s in
      let (ready, all_sent) = establishing-promises aircraft station m (kv.view s) h in
      (
        ap (λ (x : Sessions). active x aircraft.address) w ∙ ready,
        ap (λ (x : List Outcome). map is_some x) o ∙ all_sent,
      )
