-- ===== src/Hoppie/Bridge/Connects.antt =====
-- crates/openlink-hoppie/src/bridge.rs, crates/openlink-sdk/src/client.rs and
-- crates/openlink-server/src/acars.rs: the logon of a Hoppie aircraft, from its packet to the session
-- that the server stores.
use openlink.Prelude.{
  ℕ, ◌≡◌, refl, ap, ◌∙◌, Text, true, false, Option, none, some, List, [], ◌∷◌, ◌++◌, map, and_then,
  one_of, to_uppercase,
}
use openlink.Models.Endpoint.{AcarsRoutingEndpoint}
use openlink.Models.Message.{
  CpdlcMetaMessage, logon_response, connection_response, OpenLinkMessage, acars, AcarsEnvelope,
  OpenLinkEnvelope,
}
use openlink.Server.Session.{CpdlcSession}
use openlink.Server.Kv.{Kv}
use openlink.Server.Handler.Contract.Refine.{Works}
use openlink.Server.Handler.Contract.Runs.{handle_all}
use openlink.Server.Handler.Contract.Handshake.{active, stage, meta_between}
use openlink.Sdk.Client.{
  perform, cpdlc_logon_request, cpdlc_logon_response, cpdlc_connection_request,
  cpdlc_connection_response,
}
use openlink.Sdk.Client.Establish.{acars_of, keep, built_by, establishing-handle_all}
use openlink.Hoppie.Packet.{HoppieCpdlcPacket, parse_cpdlc_packet}
use openlink.Hoppie.Poll.{HoppieMessageType, HoppieMessage}
use openlink.Hoppie.Tracker.{is_openlink_seen, is_hoppie_seen, mark_hoppie_seen}
use openlink.Hoppie.Translator.{is_logon_body}
use openlink.Hoppie.Bridge.{
  Networks, Bridge, handle_hoppie_message, handle_openlink_message, handle_payload, handle_type,
  handle_openlink_meta, auto_connect, relay, relay_logon, is_own_message,
}

pub data Sent : Type 0 where
  to_server : OpenLinkMessage → Sent
  to_hoppie : (from peer packet : Text) → Sent

-- Networks that accept every message, and what was sent to them, the last message first.
abbrev pub recorder : Networks (List Sent)
recorder = record {
  send_to_server = λ message w. (to_server message ∷ w, true);
  send_cpdlc = λ from peer packet w. (to_hoppie from peer packet ∷ w, true);
}

abbrev acars_sent : Sent → Option AcarsEnvelope
acars_sent (to_server message) = acars_of message
acars_sent (to_hoppie _ _ _) = none

-- The ACARS messages to the server, in the order in which they were sent.
unfoldable pub acars_in : List Sent → List AcarsEnvelope
acars_in [] = []
acars_in (m ∷ ms) = acars_in ms ++ keep (acars_sent m) []

-- The acceptance of a logon, from the station to the aircraft.
abbrev pub accepting : Text → Text → AcarsEnvelope
accepting aircraft station =
    meta_between (record { callsign = aircraft; address = aircraft }) station aircraft
      (logon_response true)

-- The two messages of the automatic connection.
abbrev connecting : Text → Text → List AcarsEnvelope
connecting aircraft station =
    let endpoint : AcarsRoutingEndpoint = record { callsign = aircraft; address = aircraft } in
    meta_between endpoint station aircraft CpdlcMetaMessage.connection_request
    ∷ meta_between endpoint aircraft station (connection_response true)
    ∷ []

module _ (hash : Text → Text → ℕ) (cid : Text) (bridge_callsigns : List Text)
    (b : Bridge (List Sent)) where
  -- What the bridge sends for a Hoppie message.
  abbrev pub sent_for_hoppie : HoppieMessage → Text → ℕ → List AcarsEnvelope
  sent_for_hoppie msg polled_as now =
      acars_in
        (handle_hoppie_message recorder hash cid bridge_callsigns msg polled_as now
          (record b { world = [] })).0.world

  abbrev pub sent_for_openlink : OpenLinkEnvelope → List AcarsEnvelope
  sent_for_openlink envelope =
      acars_in
        (handle_openlink_message recorder hash cid bridge_callsigns envelope
          (record b { world = [] })).0.world

  logon-sent :
      (msg : HoppieMessage) (polled_as : Text) (now : ℕ) (pkt : HoppieCpdlcPacket)
      → msg.msg_type ≡ HoppieMessageType.cpdlc
      → is_hoppie_seen (hash msg.from msg.packet) b.tracker ≡ false
      → one_of (to_uppercase msg.from) bridge_callsigns ≡ false
      → parse_cpdlc_packet msg.packet ≡ some pkt
      → is_logon_body pkt.body ≡ true
      → sent_for_hoppie msg polled_as now
        ≡ keep
            (and_then acars_of (cpdlc_logon_request msg.from msg.from polled_as b.sequences).1)
            []
  unfolding handle_hoppie_message relay relay_logon acars_in cpdlc_logon_request
  logon-sent msg polled_as now pkt t n o p l = rw (t, n, o, p, l) refl

  logon-tracker :
      (msg : HoppieMessage) (polled_as : Text) (now : ℕ) (pkt : HoppieCpdlcPacket)
      → msg.msg_type ≡ HoppieMessageType.cpdlc
      → is_hoppie_seen (hash msg.from msg.packet) b.tracker ≡ false
      → one_of (to_uppercase msg.from) bridge_callsigns ≡ false
      → parse_cpdlc_packet msg.packet ≡ some pkt
      → is_logon_body pkt.body ≡ true
      → (handle_hoppie_message recorder hash cid bridge_callsigns msg polled_as now b).0.tracker
        ≡ mark_hoppie_seen (hash msg.from msg.packet) b.tracker
  unfolding handle_hoppie_message relay relay_logon mark_hoppie_seen cpdlc_logon_request
  logon-tracker msg polled_as now pkt t n o p l = rw (t, n, o, p, l) refl

  acceptance-sent :
      (aircraft station : Text) (envelope : OpenLinkEnvelope)
      → is_openlink_seen envelope.id b.tracker ≡ false
      → is_own_message cid envelope.routing.source ≡ false
      → to_uppercase aircraft ≡ aircraft
      → to_uppercase station ≡ station
      → envelope.payload ≡ acars (accepting aircraft station)
      → sent_for_openlink envelope ≡ connecting aircraft station
  unfolding handle_openlink_message handle_payload handle_type handle_openlink_meta auto_connect
      acars_in cpdlc_connection_request cpdlc_connection_response
  acceptance-sent aircraft station envelope n o a s p = rw (p, n, o, a, s) refl

-- A Hoppie aircraft logs on to a station that the bridge serves. If the packet of the logon was not
-- handled before and is not from a callsign of the bridge, the acceptance was not handled before and
-- is not from the bridge's own address, both callsigns are in upper case, the session of the aircraft
-- has no active connection, the networks deliver every message and the store works, then the messages
-- that the bridge sends to the server for the logon, the acceptance, and the messages that the bridge
-- sends when that reaches it, handled by the server in this order, leave a session whose active
-- connection is with the station, logged on and connected.
pub logon-connects :
    {S : Type 0} (kv : Kv S CpdlcSession) (works : Works kv)
    (wrap : AcarsEnvelope → OpenLinkEnvelope) (s : S) (hash : Text → Text → ℕ) (cid : Text)
    (bridge_callsigns : List Text) (b : Bridge (List Sent)) (msg : HoppieMessage) (station : Text)
    (now : ℕ) (pkt : HoppieCpdlcPacket) (envelope : OpenLinkEnvelope)
    → active (kv.view s) msg.from ≡ none
    → msg.msg_type ≡ HoppieMessageType.cpdlc
    → is_hoppie_seen (hash msg.from msg.packet) b.tracker ≡ false
    → one_of (to_uppercase msg.from) bridge_callsigns ≡ false
    → parse_cpdlc_packet msg.packet ≡ some pkt
    → is_logon_body pkt.body ≡ true
    → is_openlink_seen envelope.id b.tracker ≡ false
    → is_own_message cid envelope.routing.source ≡ false
    → to_uppercase msg.from ≡ msg.from
    → to_uppercase station ≡ station
    → envelope.payload ≡ acars (accepting msg.from station)
    → let b1 = (handle_hoppie_message recorder hash cid bridge_callsigns msg station now b).0 in
      let messages =
        sent_for_hoppie hash cid bridge_callsigns b msg station now
        ++ (accepting msg.from station ∷ sent_for_openlink hash cid bridge_callsigns b1 envelope) in
      active
        (kv.view (handle_all kv (map (λ (a : AcarsEnvelope). (a, wrap a)) messages) s).0)
        msg.from
      ≡ some (stage station true true)
unfolding built_by perform cpdlc_logon_request cpdlc_logon_response cpdlc_connection_request
    cpdlc_connection_response mark_hoppie_seen is_openlink_seen
logon-connects kv works wrap s hash cid callsigns b msg station now pkt envelope h t n o p l i own u
      v e =
    let b1 = (handle_hoppie_message recorder hash cid callsigns msg station now b).0 in
    let i' : is_openlink_seen envelope.id b1.tracker ≡ false =
      ap (is_openlink_seen envelope.id)
        (logon-tracker hash cid callsigns b msg station now pkt t n o p l)
      ∙ i in
    let x = logon-sent hash cid callsigns b msg station now pkt t n o p l in
    let y = acceptance-sent hash cid callsigns b1 msg.from station envelope i' own u v e in
    rw (x, y)
      (establishing-handle_all kv works wrap (record { callsign = msg.from; address = msg.from })
        station b.sequences s h).0
