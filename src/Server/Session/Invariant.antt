-- ===== src/Server/Session/Invariant.antt =====
-- crates/openlink-server/src/acars.rs: what holds of every session that the state machine reaches.
use openlink.Prelude.{◌≡◌, ◌↔◌, true, some, arith, OnSome, is_some, not, ◌||◌}
use openlink.Models.Endpoint.{AcarsEndpointCallsign, AcarsRoutingEndpoint}
use openlink.Models.View.{connected}
use openlink.Server.Session.{
  CpdlcConnection, CpdlcSession, new_session, ready_exchange, logon_request, logon_accepted,
  connection_request, connection_accepted, next_data_authority, termination_request, phase,
}

-- A connection is established only after its logon.
abbrev pub IsLoggedFirst : CpdlcConnection → Type 0
IsLoggedFirst c = (not c.connection || c.logon) ≡ true

pub record IsValid (s : CpdlcSession) : Type 0 where
  pub active_logged : OnSome IsLoggedFirst s.active_connection
  pub inactive_logged : OnSome IsLoggedFirst s.inactive_connection
  -- the inactive slot is used only beside an active connection
  pub active_first : (is_some s.active_connection || not (is_some s.inactive_connection)) ≡ true

-- One call of the state machine.
pub data Step (s : CpdlcSession) : CpdlcSession → Type 0 where
  requests_logon : (e : AcarsRoutingEndpoint) → Step s (logon_request e s).0
  accepts_logon : (c : AcarsEndpointCallsign) → Step s (logon_accepted c s).0
  requests_connection : (c : AcarsEndpointCallsign) → Step s (connection_request c s).0
  accepts_connection : (c : AcarsEndpointCallsign) → Step s (connection_accepted c s).0
  designates : (e : AcarsRoutingEndpoint) → Step s (next_data_authority e s).0
  terminates : (c : AcarsEndpointCallsign) → Step s (termination_request c s).0

pub data Reach (s : CpdlcSession) : CpdlcSession → Type 0 where
  here : Reach s s
  next : {t u : CpdlcSession} → Reach s t → Step t u → Reach s u

pub new_session-IsValid : (a : AcarsRoutingEndpoint) → IsValid (new_session a)
new_session-IsValid a = ground arith

pub logon_request-IsValid :
    (e : AcarsRoutingEndpoint) (s : CpdlcSession) → IsValid s → IsValid (logon_request e s).0
unfolding logon_request
logon_request-IsValid e s v = ground arith

pub logon_accepted-IsValid :
    (c : AcarsEndpointCallsign) (s : CpdlcSession) → IsValid s → IsValid (logon_accepted c s).0
unfolding logon_accepted
logon_accepted-IsValid c s v = ground arith

pub connection_request-IsValid :
    (c : AcarsEndpointCallsign) (s : CpdlcSession) → IsValid s → IsValid (connection_request c s).0
unfolding connection_request
connection_request-IsValid c s v = ground arith

pub connection_accepted-IsValid :
    (c : AcarsEndpointCallsign) (s : CpdlcSession) → IsValid s → IsValid (connection_accepted c s).0
unfolding connection_accepted
connection_accepted-IsValid c s v = ground arith

pub next_data_authority-IsValid :
    (e : AcarsRoutingEndpoint) (s : CpdlcSession) → IsValid s → IsValid (next_data_authority e s).0
unfolding next_data_authority
next_data_authority-IsValid e s v = ground arith

pub termination_request-IsValid :
    (c : AcarsEndpointCallsign) (s : CpdlcSession) → IsValid s → IsValid (termination_request c s).0
unfolding termination_request
termination_request-IsValid c s v = ground arith

Step-IsValid : {s t : CpdlcSession} → Step s t → IsValid s → IsValid t
Step-IsValid {s} (requests_logon e) v = logon_request-IsValid e s v
Step-IsValid {s} (accepts_logon c) v = logon_accepted-IsValid c s v
Step-IsValid {s} (requests_connection c) v = connection_request-IsValid c s v
Step-IsValid {s} (accepts_connection c) v = connection_accepted-IsValid c s v
Step-IsValid {s} (designates e) v = next_data_authority-IsValid e s v
Step-IsValid {s} (terminates c) v = termination_request-IsValid c s v

-- Whatever calls are made on a new session, in whatever order: in both slots a connection is
-- established only after its logon, and the inactive slot is used only beside an active connection.
pub Reach-IsValid :
    (a : AcarsRoutingEndpoint) {s : CpdlcSession} → Reach (new_session a) s → IsValid s
Reach-IsValid a here = new_session-IsValid a
Reach-IsValid a (next r st) = Step-IsValid st (Reach-IsValid a r)

-- In a session that the calls reach from a new one, the phase that clients are shown for the active
-- connection is "connected" exactly if the server lets messages be exchanged on it.
pub phase-ready_exchange :
    (a : AcarsRoutingEndpoint) (s : CpdlcSession) (c : CpdlcConnection)
    → Reach (new_session a) s
    → s.active_connection ≡ some c
    → (phase c ≡ connected) ↔ (ready_exchange c ≡ true)
unfolding phase
phase-ready_exchange a s c r e = let v = Reach-IsValid a r in ground arith
