-- ===== src/Hoppie/Bridge.antt =====
-- crates/openlink-hoppie/src/bridge.rs: what the bridge does with a message from either side. The two
-- networks are a parameter, a send of which may fail; so are the hash of a Hoppie message, the bridge's
-- own network address and its callsigns.
pub mod Duplicates
pub mod Connects
pub mod Loop
pub mod Survives
use openlink.Prelude.{
  ℕ, Text, text, Bool, true, false, not, Option, none, some, List, [], ◌∷◌, ◌=t◌, one_of,
  map_option, to_uppercase, unwrap_or, if◌then◌else◌,
}
use openlink.Models.Attribute.{downlink}
use openlink.Models.Endpoint.{OpenLinkRoutingEndpoint, server, address}
use openlink.Models.Message.{
  CpdlcApplicationMessage, CpdlcMetaMessage, logon_response, connection_response, logon_forward,
  session_update, CpdlcMessageType, application, meta, CpdlcEnvelope, cpdlc, AcarsMessage,
  AcarsEnvelope, OpenLinkMessage, acars, meta_message, OpenLinkEnvelope,
}
use openlink.Models.Builder
use openlink.Models.Builder.Station
use openlink.Hoppie.Packet.{HoppieCpdlcPacket, parse_cpdlc_packet, format_cpdlc_packet}
use openlink.Hoppie.Poll.{HoppieMessageType, HoppieMessage}
use openlink.Hoppie.Tracker.{
  SessionKey, SessionTracker, new_key, next_min, record_hoppie_min, record_openlink_min,
  translate_hoppie_mrn, is_openlink_seen, mark_openlink_seen, is_hoppie_seen, mark_hoppie_seen,
}
use openlink.Hoppie.Translator.{
  HoppiePacketOut, hoppie_to_openlink, openlink_to_hoppie, is_logon_body,
}
use openlink.Sdk.Sequence.{MinSequences}
use openlink.Sdk.Client.{
  between, cpdlc_logon_request, cpdlc_connection_request, cpdlc_connection_response,
}

abbrev pub cpdlc_env : AcarsMessage → CpdlcEnvelope
cpdlc_env (cpdlc c) = c

-- Both networks, in a state `W`: a send reports its success.
pub record Networks (W : Type 0) : Type 0 where
  pub send_to_server : OpenLinkMessage → W → W × Bool
  pub send_cpdlc : Text → Text → Text → W → W × Bool

-- The tracker, the MIN sequences of the OpenLink client, and the networks.
pub record Bridge (W : Type 0) : Type 0 where
  pub tracker : SessionTracker
  pub sequences : MinSequences
  pub world : W

-- A handler returns, returns an error, or panics.
pub data Ended : Type 0 where
  done failed panicked : Ended

-- `send(…).await?`, and what follows it.
abbrev pub after_send :
    {W : Type 0} → Bool → Bridge W → (Bridge W → Bridge W × Ended) → Bridge W × Ended
after_send sent b next = let rest = next b in if sent then rest else (b, failed)

abbrev pub is_cpdlc : HoppieMessageType → Bool
is_cpdlc HoppieMessageType.cpdlc = true
is_cpdlc _ = false

-- The reference number that the tracker knows for that of an aircraft, or else the latter.
abbrev mapped_mrn : SessionKey → SessionTracker → Option ℕ → Option ℕ
mapped_mrn key t none = none
mapped_mrn key t (some mrn) = some (unwrap_or mrn (translate_hoppie_mrn key mrn t))

-- `if let CpdlcMessageType::Application(ref mut app) = env.message`: the message and the tracker.
abbrev pub adjusted :
    SessionKey → ℕ → CpdlcMessageType → SessionTracker → SessionTracker × CpdlcMessageType
adjusted key bridge_min (application app) t = (
  record_hoppie_min key bridge_min bridge_min t,
  application (record app { mrn = mapped_mrn key t app.mrn }),
)
adjusted key bridge_min (meta m) t = (t, meta m)

unfoldable pub determine_aircraft_station : Text → Text → List Text → Text × Text
determine_aircraft_station source dest bridge_callsigns =
    if one_of dest bridge_callsigns then (source, dest) else (dest, source)

-- The envelope comes from the bridge's own network address.
abbrev pub is_own_message : Text → OpenLinkRoutingEndpoint → Bool
is_own_message cid (address _ addr) = addr =t cid
is_own_message cid (server _) = false

abbrev pub logon_packet : Bool → Text
logon_packet accepted =
    format_cpdlc_packet (text "1") none (text "N")
      (if accepted then text "LOGON ACCEPTED" else text "LOGON REJECTED")

module _ {W : Type 0} (networks : Networks W) (hash : Text → Text → ℕ) (cid : Text)
    (bridge_callsigns : List Text) where
  -- `client.send_to_server(message).await?` on a message that was just built.
  abbrev pub send_message :
      Option OpenLinkMessage → Bridge W → (Bridge W → Bridge W × Ended) → Bridge W × Ended
  send_message none b next = (b, panicked)
  send_message (some message) b next =
      let (w, sent) = networks.send_to_server message b.world in
      after_send sent (record b { world = w }) next

  abbrev pub send_packet : Text → Text → Text → Bridge W → Bridge W × Ended
  send_packet from peer packet b =
      let (w, sent) = networks.send_cpdlc from peer packet b.world in
      after_send sent (record b { world = w }) (λ b'. (b', done))

  -- The registration of a Hoppie aircraft, under the bridge's network address.
  abbrev pub registration : Text → Option OpenLinkMessage
  registration aircraft = Station.build (Station.online (Station.new cid aircraft aircraft))

  -- A logon of a Hoppie aircraft: its registration, then the logon request.
  unfoldable pub relay_logon : Text → Text → Bridge W → Bridge W × Ended
  relay_logon aircraft station b = send_message (registration aircraft) b (λ b1.
      let (m, message) = cpdlc_logon_request aircraft aircraft station b1.sequences in
      send_message message (record b1 { sequences = m }) (λ b2. (b2, done)))

  abbrev relayed : Text → ℕ → SessionKey → Option CpdlcEnvelope → Bridge W → Bridge W × Ended
  relayed aircraft bridge_min key none b = (b, failed)
  relayed aircraft bridge_min key (some env) b =
      let (t, message) = adjusted key bridge_min env.message b.tracker in
      send_message
        (between aircraft aircraft env.source env.destination (Builder.raw_message message))
        (record b { tracker = t }) (λ b1. (b1, done))

  -- A CPDLC packet of an aircraft that is no logon.
  unfoldable pub relay_packet : Text → Text → Text → ℕ → Bridge W → Bridge W × Ended
  relay_packet aircraft station packet now b =
      let key = new_key aircraft station in
      let (t, bridge_min) = next_min key b.tracker in
      relayed aircraft bridge_min key
        (hoppie_to_openlink aircraft station packet bridge_min downlink now)
        (record b { tracker = t })

  abbrev relay : HoppieMessage → Text → ℕ → Option HoppieCpdlcPacket → Bridge W → Bridge W × Ended
  unfolding relay_logon relay_packet
  relay msg polled_as now none b = (b, failed)
  relay msg polled_as now (some pkt) b =
      if is_logon_body pkt.body
      then relay_logon msg.from polled_as b
      else relay_packet msg.from polled_as msg.packet now b

  unfoldable pub handle_hoppie_message : HoppieMessage → Text → ℕ → Bridge W → Bridge W × Ended
  unfolding relay
  handle_hoppie_message msg polled_as now b =
      let h = hash msg.from msg.packet in
      let marked = record b { tracker = mark_hoppie_seen h b.tracker } in
      if not (is_cpdlc msg.msg_type)
      then (b, done)
      else if is_hoppie_seen h b.tracker
      then (b, done)
      else if one_of (to_uppercase msg.from) bridge_callsigns
      then (marked, done)
      else relay msg polled_as now (parse_cpdlc_packet msg.packet) marked

  -- `client.cpdlc_connection_request`, `client.cpdlc_connection_response`, and their sends.
  unfoldable pub auto_connect :
      Text → Text → Bridge W → (Bridge W → Bridge W × Ended) → Bridge W × Ended
  auto_connect station aircraft b next =
      let (m, request) = cpdlc_connection_request station aircraft aircraft b.sequences in
      send_message request (record b { sequences = m })
        (λ b1.
          let (n, response) =
            cpdlc_connection_response aircraft aircraft station true b1.sequences in
          send_message response (record b1 { sequences = n }) next)

  unfoldable pub handle_openlink_meta : CpdlcMetaMessage → Text → Text → Bridge W → Bridge W × Ended
  unfolding auto_connect
  handle_openlink_meta (logon_response true) source dest b =
      auto_connect source dest b (send_packet source dest (logon_packet true))
  handle_openlink_meta (logon_response false) source dest b =
      send_packet source dest (logon_packet false) b
  handle_openlink_meta _ source dest b = (b, done)

  -- The message in the key of the aircraft and the station.
  abbrev recorded : Text → Text → CpdlcApplicationMessage → SessionTracker → SessionTracker
  recorded source dest app t =
      let (aircraft, station) = determine_aircraft_station source dest bridge_callsigns in
      record_openlink_min (new_key aircraft station) app.min app.min t

  abbrev send_out :
      Text → Text → CpdlcApplicationMessage → Option HoppiePacketOut → Bridge W → Bridge W × Ended
  send_out source dest app none b = (b, done)
  send_out source dest app (some out) b =
      send_packet out.from out.peer out.packet
        (record b { tracker = recorded source dest app b.tracker })

  abbrev handle_type : CpdlcMessageType → CpdlcEnvelope → Bridge W → Bridge W × Ended
  unfolding handle_openlink_meta
  handle_type (meta m) c b =
      handle_openlink_meta m (to_uppercase c.source) (to_uppercase c.destination) b
  handle_type (application app) c b =
      send_out (to_uppercase c.source) (to_uppercase c.destination) app (openlink_to_hoppie c) b

  abbrev handle_payload : OpenLinkMessage → OpenLinkRoutingEndpoint → Bridge W → Bridge W × Ended
  unfolding handle_type
  handle_payload (meta_message m) source b = (b, done)
  handle_payload (acars a) source b =
      let c = cpdlc_env a.message in
      let handled = handle_type c.message c b in
      if is_own_message cid source then (b, done) else handled

  unfoldable pub handle_openlink_message : OpenLinkEnvelope → Bridge W → Bridge W × Ended
  unfolding handle_payload
  handle_openlink_message envelope b =
      let marked = record b { tracker = mark_openlink_seen envelope.id b.tracker } in
      let handled = handle_payload envelope.payload envelope.routing.source marked in
      if is_openlink_seen envelope.id b.tracker then (b, done) else handled
