-- ===== src/Server/Session/Slots.antt =====
-- crates/openlink-server/src/acars.rs: what each call does to the two slots of a session.
use openlink.Prelude.{
  ◌≡◌, refl, ◌≢◌, ◌↔◌, true, false, not, ◌&&◌, Option, none, some, arith, err, Error,
  connect_without_logon, =t_iff, =t_refl, is_some_and, if◌then◌else◌,
}
use openlink.Models.Endpoint.{AcarsEndpointCallsign, AcarsRoutingEndpoint}
use openlink.Server.Session.{
  CpdlcConnection, CpdlcSession, new_session, is_with, holds, logon_request, logon_accepted,
  connection_accepted, termination_request,
}

-- The connection that a call on behalf of `station` works on: the active one first.
abbrev pub connection_with : AcarsEndpointCallsign → CpdlcSession → Option CpdlcConnection
connection_with station s =
    if holds station s.active_connection
    then s.active_connection
    else if holds station s.inactive_connection
    then s.inactive_connection
    else none

-- After a termination the station holds a slot exactly if it held both, and then the active one.
pub holds-termination_request :
    (c : AcarsEndpointCallsign) (s : CpdlcSession)
    → let t = (termination_request c s).0 in
      (holds c t.active_connection ≡ (holds c s.active_connection && holds c s.inactive_connection))
      × (holds c t.inactive_connection ≡ false)
unfolding termination_request
holds-termination_request c s = (ground arith, ground arith)

-- A station that requests a logon twice on a new session holds both slots.
pub logon_request_twice :
    (a e : AcarsRoutingEndpoint)
    → let s = (logon_request e (logon_request e (new_session a)).0).0 in
      (holds e.callsign s.active_connection ≡ true)
      × (holds e.callsign s.inactive_connection ≡ true)
unfolding logon_request
logon_request_twice a e = (=t_refl e.callsign, =t_refl e.callsign)

-- Accepting a connection fails exactly if the connection with the station is not logged on.
pub connection_accepted-eq-err_iff :
    (c : AcarsEndpointCallsign) (s : CpdlcSession)
    → ((connection_accepted c s).1 ≡ err connect_without_logon)
      ↔ (is_some_and (λ (k : CpdlcConnection). not k.logon) (connection_with c s) ≡ true)
unfolding connection_accepted
connection_accepted-eq-err_iff c s = ground arith

-- An acceptance that fails leaves the session as it was.
pub connection_accepted-error_unchanged :
    (c : AcarsEndpointCallsign) (s : CpdlcSession) (e : Error)
    → (connection_accepted c s).1 ≡ err e
    → (connection_accepted c s).0 ≡ s
unfolding connection_accepted
connection_accepted-error_unchanged c s e h = ground arith

-- The endpoint of a connection is that of one station.
is_with-other :
    (c other : AcarsEndpointCallsign)
    → c ≢ other
    → (k : CpdlcConnection) → (is_with c k && is_with other k) ≡ false
is_with-other c other h k =
    ground (arith, =t_iff k.station.callsign c, =t_iff k.station.callsign other)

module _ (c other : AcarsEndpointCallsign) (h : c ≢ other) where
  abbrev Untouched : CpdlcSession → Type 0
  Untouched s =
      (connection_with other (logon_accepted c s).0 ≡ connection_with other s)
      × (connection_with other (connection_accepted c s).0 ≡ connection_with other s)
      × (connection_with other (termination_request c s).0 ≡ connection_with other s)

  slots-Untouched :
      (a : AcarsRoutingEndpoint) (x y : Option CpdlcConnection) (nda : Option AcarsRoutingEndpoint)
      → Untouched (record {
        aircraft = a;
        active_connection = x;
        inactive_connection = y;
        next_data_authority = nda;
      })
  unfolding logon_accepted connection_accepted termination_request
  slots-Untouched a none none nda = (refl, refl, refl)
  slots-Untouched a (some k) none nda =
      let p = is_with-other c other h k in (ground arith, ground arith, ground arith)
  slots-Untouched a none (some l) nda =
      let q = is_with-other c other h l in (ground arith, ground arith, ground arith)
  slots-Untouched a (some k) (some l) nda =
      let p = is_with-other c other h k in
      let q = is_with-other c other h l in (ground arith, ground arith, ground arith)

-- Calls on behalf of one station do not touch the connection of another, but that a termination may
-- move it to the active slot.
pub connection_with-other :
    (c other : AcarsEndpointCallsign) (s : CpdlcSession)
    → c ≢ other
    → (connection_with other (logon_accepted c s).0 ≡ connection_with other s)
      × (connection_with other (connection_accepted c s).0 ≡ connection_with other s)
      × (connection_with other (termination_request c s).0 ≡ connection_with other s)
connection_with-other c other s h =
    slots-Untouched c other h s.aircraft s.active_connection s.inactive_connection
      s.next_data_authority
