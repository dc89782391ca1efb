-- ===== src/Examples/Sessions.antt =====
-- Sessions of one aircraft: the tests of crates/openlink-server/src/acars.rs, and the theorems on
-- the state machine at concrete sessions.
use openlink.Prelude.{
  ◌≡◌, refl, ◌≢◌, ◌↔◌, text, true, false, ◌&&◌, none, some, err, connect_without_logon, ◌=t◌,
  =t_iff, arith, not, is_some_and,
}
use openlink.Models.Endpoint.{AcarsRoutingEndpoint}
use openlink.Models.View.{connected}
use openlink.Server.Session
use openlink.Server.Session.{
  CpdlcConnection, CpdlcSession, new_session, new_connection, bare_endpoint, holds, ready_exchange,
  phase, to_aircraft_view, to_station_view,
}
use openlink.Server.Session.Invariant.{
  IsValid, Reach, here, next, requests_logon, accepts_logon, accepts_connection, Reach-IsValid,
  phase-ready_exchange,
}
use openlink.Server.Session.Slots.{
  connection_with, holds-termination_request, connection_accepted-eq-err_iff,
}
use openlink.Server.Session.Handover.{prepare_transfer, transfer}

abbrev pub aircraft : AcarsRoutingEndpoint
aircraft = record { callsign = text "TEST123"; address = text "abc" }

abbrev pub station1 : AcarsRoutingEndpoint
station1 = record { callsign = text "STATION1"; address = text "def" }

abbrev pub station2 : AcarsRoutingEndpoint
station2 = record { callsign = text "STATION2"; address = text "ghi" }

pub stations_differ : station1.callsign ≢ station2.callsign
unfolding ◌=t◌
stations_differ e = ground (arith, =t_iff station1.callsign station2.callsign)

abbrev pub pending : CpdlcSession
pending = (Session.logon_request station1 (new_session aircraft)).0

abbrev pub logged : CpdlcSession
logged = (Session.logon_accepted station1.callsign pending).0

abbrev pub established : CpdlcSession
established = (Session.connection_accepted station1.callsign logged).0

established-ready :
    established.active_connection
    ≡ some (record { station = station1; logon = true; connection = true })
unfolding Session.logon_request Session.logon_accepted Session.connection_accepted ◌=t◌
established-ready = refl

-- test_cpdlc_session, to its end
terminated_session :
    (Session.termination_request station1.callsign established).0.active_connection ≡ none
unfolding Session.logon_request Session.logon_accepted Session.connection_accepted
    Session.termination_request ◌=t◌
terminated_session = refl

established-Reach : Reach (new_session aircraft) established
established-Reach =
    next (next (next here (requests_logon station1)) (accepts_logon station1.callsign))
      (accepts_connection station1.callsign)

Reach-IsValid_example : IsValid established
Reach-IsValid_example = Reach-IsValid aircraft established-Reach

abbrev ready : CpdlcConnection
ready = record { station = station1; logon = true; connection = true }

phase-ready_exchange_example : (phase ready ≡ connected) ↔ (ready_exchange ready ≡ true)
phase-ready_exchange_example =
    phase-ready_exchange aircraft established ready established-Reach established-ready

holds-termination_request_example :
    let t = (Session.termination_request station1.callsign established).0 in
    (holds station1.callsign t.active_connection ≡ (
      holds station1.callsign established.active_connection
      && holds station1.callsign established.inactive_connection))
    × (holds station1.callsign t.inactive_connection ≡ false)
holds-termination_request_example = holds-termination_request station1.callsign established

connection_accepted-eq-err_iff_example :
    ((Session.connection_accepted station1.callsign pending).1 ≡ err connect_without_logon) ↔ (
      is_some_and (λ (k : CpdlcConnection). not k.logon) (connection_with station1.callsign pending)
      ≡ true)
connection_accepted-eq-err_iff_example = connection_accepted-eq-err_iff station1.callsign pending

pending_refused :
    (Session.connection_accepted station1.callsign pending).1 ≡ err connect_without_logon
unfolding Session.logon_request Session.connection_accepted ◌=t◌
pending_refused = refl

established-free : holds station2.callsign established.inactive_connection ≡ false
unfolding Session.logon_request Session.logon_accepted Session.connection_accepted ◌=t◌
established-free = refl

-- test_cpdlc_session_with_nda_transfer, to its end
transfer_example :
    let other : CpdlcConnection = record {
      station = bare_endpoint station2.callsign;
      logon = true;
      connection = true;
    } in
    let t = prepare_transfer station2 established in
    let u = (Session.termination_request station1.callsign t).0 in
    (t.active_connection ≡ some ready)
    × (t.inactive_connection ≡ some other)
    × (u.active_connection ≡ some other)
    × (u.inactive_connection ≡ none)
transfer_example =
    transfer established ready station2 established-ready stations_differ established-free
