-- ===== src/Server/Handler/Contract.antt =====
-- What the message handlers of crates/openlink-server/src/acars.rs promise, without the store and its
-- revisions: the sessions are a map from the address of an aircraft, and a message either is refused,
-- or is forwarded, and then may replace the session of its aircraft.
pub mod Refine
pub mod Runs
pub mod Handshake
use openlink.Prelude.{
  Text, Bool, true, false, not, Option, none, some, List, [], ◌∷◌, is_some_and, unwrap_or,
  if◌then◌else◌,
}
use openlink.Models.Endpoint.{AcarsEndpointCallsign, AcarsRoutingEndpoint}
use openlink.Models.Message.{
  CpdlcMetaMessage, logon_response, connection_response, logon_forward, session_update,
  CpdlcMessageType, application, meta, CpdlcEnvelope, AcarsEnvelope,
}
use openlink.Server.Session
use openlink.Server.Session.{CpdlcConnection, CpdlcSession, new_session, bare_endpoint}
use openlink.Server.Session.Slots.{connection_with}
use openlink.Server.Kv.{written}
use openlink.Server.Handler.{normalize}
use openlink.Server.Handler.Exchange.{may_exchange, managed}
use openlink.Server.Routing.{cpdlc_of}

abbrev pub Sessions : Type 0
Sessions = Text → Option CpdlcSession

pub data Verdict : Type 0 where
  refuses : Verdict
  forwards : Verdict
  stores : CpdlcSession → Verdict

-- The connection with the station, if there is one, is logged on.
abbrev pub may_connect : AcarsEndpointCallsign → CpdlcSession → Bool
may_connect station x =
    not (is_some_and (λ (k : CpdlcConnection). not k.logon) (connection_with station x))

-- A meta message, in the session of the aircraft or a new one.
abbrev pub decide_meta : CpdlcMetaMessage → CpdlcEnvelope → CpdlcSession → Verdict
decide_meta (CpdlcMetaMessage.logon_request station _ _) c x =
    stores (Session.logon_request (bare_endpoint station) x).0
decide_meta (logon_response accepted) c x =
    if accepted then stores (Session.logon_accepted c.source x).0 else forwards
decide_meta CpdlcMetaMessage.connection_request c x =
    stores (Session.connection_request c.source x).0
decide_meta (connection_response accepted) c x =
    if accepted
    then if may_connect c.destination x
      then stores (Session.connection_accepted c.destination x).0
      else refuses
    else forwards
decide_meta (logon_forward _ _ _ _) c x = forwards
decide_meta (session_update _) c x = forwards

abbrev pub decide :
    CpdlcMessageType → CpdlcEnvelope → AcarsRoutingEndpoint → Option CpdlcSession → Verdict
decide (application msg) c aircraft none = refuses
decide (application msg) c aircraft (some x) =
    if may_exchange msg x then stores (managed c.source (normalize msg).elements x) else refuses
decide (meta message) c aircraft found =
    decide_meta message c (unwrap_or (new_session aircraft) found)

-- Where a message goes, and the session that is broadcast behind it.
abbrev pub Outcome : Type 0
Outcome = Option (AcarsEndpointCallsign × Option CpdlcSession)

abbrev pub settle : Text → AcarsEndpointCallsign → Verdict → Sessions → Sessions × Outcome
settle id destination refuses sessions = (sessions, none)
settle id destination forwards sessions = (sessions, some (destination, none))
settle id destination (stores t) sessions =
    (written sessions id (some t), some (destination, some t))

abbrev pub promise : AcarsEnvelope → Sessions → Sessions × Outcome
promise a sessions =
    let c = cpdlc_of a.message in
    settle a.aircraft.address c.destination
      (decide c.message c a.aircraft (sessions a.aircraft.address)) sessions

-- Messages, one after the other.
unfoldable pub promises : List AcarsEnvelope → Sessions → Sessions × List Outcome
promises [] sessions = (sessions, [])
promises (a ∷ rest) sessions =
    let (sessions', outcome) = promise a sessions in
    let (final, outcomes) = promises rest sessions' in (final, outcome ∷ outcomes)
