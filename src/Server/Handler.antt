-- ===== src/Server/Handler.antt =====
-- crates/openlink-server/src/acars.rs: `CPDLCServer` and its message handlers. The bucket of sessions
-- is a parameter; a handler returns the bucket that it leaves beside its result.
pub mod Stored
pub mod Exchange
pub mod Safety
pub mod Normal
pub mod Success
pub mod Whole
pub mod Contract
use openlink.Prelude.{
  ℕ, Text, text, Bool, true, false, not, ◌&&◌, ◌||◌, Option, none, some, List, [], ◌∷◌, map, leb,
  head?, ◌=t◌, one_of, to_uppercase, and_then, unwrap_or, is_some_and, Result, ok, err, Done, ◌>>=◌,
  Error, no_session, no_active_connection, not_connected, invalid_min, if◌then◌else◌,
}
use openlink.Models.Endpoint.{AcarsEndpointCallsign, AcarsRoutingEndpoint}
use openlink.Models.Argument.{ArgType, CpdlcArgument, free_text, facility_designation, is_free_text}
use openlink.Models.Definition.{MessageDefinition}
use openlink.Models.Registry.{find_definition}
use openlink.Models.Message.{
  MessageElement, CpdlcApplicationMessage, CpdlcMetaMessage, logon_response, connection_response,
  logon_forward, session_update, CpdlcMessageType, application, meta, CpdlcEnvelope, cpdlc,
  AcarsEnvelope, OpenLinkMessage, acars, meta_message, OpenLinkEnvelope,
}
use openlink.Server.Session
use openlink.Server.Session.{
  CpdlcConnection, CpdlcSession, new_session, ready_exchange, bare_endpoint, holds,
}
use openlink.Server.Kv.{Entry, Kv}

-- `session.call(…)?`
abbrev pub proceed : CpdlcSession × Done → Result CpdlcSession
proceed (s, ok _) = ok s
proceed (s, err e) = err e

-- Free-text arguments, where the definition has a free text, in upper case.
abbrev upper_argument : ArgType → CpdlcArgument → CpdlcArgument
upper_argument t (CpdlcArgument.free_text s) =
    CpdlcArgument.free_text (if is_free_text t then to_uppercase s else s)
upper_argument t a = a

abbrev pub upper_arguments : List ArgType → List CpdlcArgument → List CpdlcArgument
upper_arguments [] args = args
upper_arguments (t ∷ ts) [] = []
upper_arguments (t ∷ ts) (a ∷ args) = upper_argument t a ∷ upper_arguments ts args

abbrev pub normalize_by : Option MessageDefinition → MessageElement → MessageElement
normalize_by none e = e
normalize_by (some def) e = record e { args = upper_arguments def.args e.args }

-- One round of the loop that normalises `msg.elements`.
unfoldable pub normalize_element : MessageElement → MessageElement
normalize_element e = normalize_by (find_definition e.id) e

unfoldable pub normalize : CpdlcApplicationMessage → CpdlcApplicationMessage
normalize msg = record msg { elements = map normalize_element msg.elements }

abbrev designate : Option CpdlcArgument → CpdlcSession → Result CpdlcSession
designate (some (CpdlcArgument.facility_designation facility)) s =
    proceed (Session.next_data_authority (bare_endpoint facility) s)
designate _ s = ok s

-- The session-management elements: UM160 NEXT DATA AUTHORITY and UM161 END SERVICE.
unfoldable pub manage_element :
    AcarsEndpointCallsign → MessageElement → CpdlcSession → Result CpdlcSession
manage_element source e s =
    if e.id =t text "UM160"
    then designate (head? e.args) s
    else if e.id =t text "UM161"
    then proceed (Session.termination_request source s)
    else ok s

unfoldable pub manage :
    AcarsEndpointCallsign → List MessageElement → CpdlcSession → Result CpdlcSession
manage source [] s = ok s
manage source (e ∷ es) s = manage_element source e s >>= manage source es

-- The closure of `handle_cpdlc_application_message` behind the normalisation: the checks, then the
-- session management.
abbrev checked :
    AcarsEndpointCallsign
    → CpdlcApplicationMessage
    → CpdlcSession
    → Option CpdlcConnection
    → Result (Option CpdlcSession × CpdlcApplicationMessage)
checked source msg s none = err no_active_connection
checked source msg s (some active) =
    if not (ready_exchange active)
    then err not_connected
    else if not (leb 1 msg.min && leb msg.min 63)
    then err invalid_min
    else (manage source msg.elements s >>= λ t. ok (some t, msg))

unfoldable pub application_update :
    AcarsEndpointCallsign
    → CpdlcApplicationMessage
    → Option CpdlcSession
    → Result (Option CpdlcSession × CpdlcApplicationMessage)
application_update source msg none = err no_session
application_update source msg (some s) = checked source (normalize msg) s s.active_connection

-- The closures of `handle_cpdlc_meta_message`: a call on the session, which is new where there is
-- none.
unfoldable pub session_update_of :
    AcarsRoutingEndpoint
    → (CpdlcSession → CpdlcSession × Done)
    → Option CpdlcSession
    → Result (Option CpdlcSession × Unit {0})
session_update_of aircraft call found =
    proceed (call (unwrap_or (new_session aircraft) found)) >>= λ t. ok (some t, tt)

abbrev pub revision_of : Option (Entry CpdlcSession) → ℕ
revision_of none = 0
revision_of (some e) = e.revision

abbrev pub value_of : Option (Entry CpdlcSession) → Option CpdlcSession
value_of found = and_then (λ (e : Entry CpdlcSession). e.value) found

-- `list_sessions_for_callsign`: what makes a session relevant to a participant.
unfoldable pub is_relevant : AcarsEndpointCallsign → CpdlcSession → Bool
is_relevant callsign s =
    (s.aircraft.callsign =t callsign)
    || (holds callsign s.active_connection || holds callsign s.inactive_connection)

-- The payload of the rebuilt envelope; a payload that is no ACARS message stays as it is.
abbrev pub with_cpdlc : CpdlcEnvelope → OpenLinkMessage → OpenLinkMessage
with_cpdlc c (acars a) = acars (record a { message = cpdlc c })
with_cpdlc c (meta_message m) = meta_message m

module _ {S : Type 0} (kv : Kv S CpdlcSession) where
  -- The end of `get_and_update_session_for_aircraft`: the updated session is written at the revision
  -- that was read, and a missing one is deleted.
  unfoldable pub write_back :
      {A : Type 0}
      → Text
      → ℕ
      → Result (Option CpdlcSession × A)
      → S
      → S × Result (Option CpdlcSession × A)
  write_back id revision (err e) s = (s, err e)
  write_back id revision (ok (some t, a)) s =
      let (s', done) = kv.update id t revision s in (s', done >>= λ _. ok (some t, a))
  write_back id revision (ok (none, a)) s =
      let (s', done) = kv.delete id s in (s', done >>= λ _. ok (none, a))

  -- `get_and_update_session_for_aircraft`; what the closure hands over besides comes back too.
  unfoldable pub get_and_update :
      {A : Type 0}
      → AcarsRoutingEndpoint
      → (Option CpdlcSession → Result (Option CpdlcSession × A))
      → S
      → S × Result (Option CpdlcSession × A)
  unfolding write_back
  get_and_update aircraft update_fn s = elim (kv.entry s aircraft.address) [
    | err e ↦ (s, err e)
    | ok found ↦ write_back aircraft.address (revision_of found) (update_fn (value_of found)) s
  ]

  -- `handle_cpdlc_application_message`: the destination, the session and the modified envelope.
  pub handle_application :
      CpdlcApplicationMessage
      → CpdlcEnvelope
      → AcarsEnvelope
      → S
      → S × Result (AcarsEndpointCallsign × Option CpdlcSession × CpdlcEnvelope)
  handle_application msg c a s =
      let (s', r) = get_and_update a.aircraft (application_update c.source msg) s in
      (s', r >>= λ u. ok (c.destination, u.0, record c { message = application u.1 }))

  -- A meta message that makes a call on the session of the aircraft.
  pub call_session :
      AcarsRoutingEndpoint
      → (CpdlcSession → CpdlcSession × Done)
      → S
      → S × Result (Option CpdlcSession)
  call_session aircraft call s =
      let (s', r) = get_and_update aircraft (session_update_of aircraft call) s in
      (s', r >>= λ u. ok u.0)

  -- The `match` of `handle_cpdlc_meta_message`.
  pub meta_session :
      CpdlcMetaMessage → CpdlcEnvelope → AcarsRoutingEndpoint → S → S × Result (Option CpdlcSession)
  unfolding call_session
  meta_session (CpdlcMetaMessage.logon_request station _ _) c aircraft =
      call_session aircraft (Session.logon_request (bare_endpoint station))
  meta_session (logon_response accepted) c aircraft =
      if accepted then call_session aircraft (Session.logon_accepted c.source) else λ s.
      (s, ok none)
  meta_session CpdlcMetaMessage.connection_request c aircraft =
      call_session aircraft (Session.connection_request c.source)
  meta_session (connection_response accepted) c aircraft =
      if accepted then call_session aircraft (Session.connection_accepted c.destination) else λ s.
      (s, ok none)
  meta_session (logon_forward _ _ _ _) c aircraft = λ s. (s, ok none)
  meta_session (session_update _) c aircraft = λ s. (s, ok none)

  -- `handle_cpdlc_meta_message`
  pub handle_meta :
      CpdlcMetaMessage
      → CpdlcEnvelope
      → AcarsEnvelope
      → S
      → S × Result (AcarsEndpointCallsign × Option CpdlcSession)
  unfolding meta_session
  handle_meta message c a s =
      let (s', r) = meta_session message c a.aircraft s in
      (s', r >>= λ session. ok (c.destination, session))

  pub handle_type :
      CpdlcMessageType
      → CpdlcEnvelope
      → AcarsEnvelope
      → OpenLinkEnvelope
      → S
      → S × Result (AcarsEndpointCallsign × Option CpdlcSession × OpenLinkEnvelope)
  handle_type (application msg) c a original s =
      let (s', r) = handle_application msg c a s in
      (s', r >>= λ t. ok (t.0, t.1, record original { payload = with_cpdlc t.2 original.payload }))
  handle_type (meta message) c a original s =
      let (s', r) = handle_meta message c a s in (s', r >>= λ t. ok (t.0, t.1, original))

  -- `handle_cpdlc_message`
  pub handle_cpdlc :
      CpdlcEnvelope
      → AcarsEnvelope
      → OpenLinkEnvelope
      → S
      → S × Result (AcarsEndpointCallsign × Option CpdlcSession × OpenLinkEnvelope)
  unfolding handle_type
  handle_cpdlc c a original s = handle_type c.message c a original s
