-- ===== src/Examples/Bridges.antt =====
-- The Hoppie bridge over networks that record what is sent, and a run of the server.
use openlink.Prelude.{
  ℕ, ◌≡◌, refl, Text, text, true, false, none, some, List, [], ◌∷◌, ◌++◌, map, length, arith, ◌=t◌,
  to_uppercase, to_lowercase, before, after, trim_start, trim_end, strip_prefix, splitn,
}
use openlink.Models.Endpoint.{server, address, offline, station_status}
use openlink.Models.Message.{acars, meta_message, AcarsEnvelope, OpenLinkEnvelope}
use openlink.Server.Session.{CpdlcSession}
use openlink.Server.Handler.Stored.{AllSound}
use openlink.Server.Handler.Contract.Runs.{handle_all}
use openlink.Server.Handler.Contract.Handshake.{active, stage}
use openlink.Server.Presence.{Client, Settings}
use openlink.Server.Registry.{StationEntry, CallsignIndexEntry}
use openlink.Server.Presence.Loop.{ServerState, Event, run}
use openlink.Server.Presence.Loop.Sound.{run-AllSound}
use openlink.Sdk.Sequence.{no_sequences}
use openlink.Hoppie.Packet.{HoppieCpdlcPacket, parse_cpdlc_packet}
use openlink.Hoppie.Poll
use openlink.Hoppie.Poll.{HoppieMessageType, HoppieMessage, parse_poll_response, parse_blocks}
use openlink.Hoppie.Tracker.{new_tracker, is_hoppie_seen, is_openlink_seen}
use openlink.Hoppie.Translator.{is_logon_body}
use openlink.Hoppie.Bridge.{Bridge, done, handle_openlink_message, handle_hoppie_message}
use openlink.Hoppie.Bridge.Duplicates.{handle_each, handle_openlink_message-again}
use openlink.Hoppie.Bridge.Connects.{
  Sent, recorder, accepting, sent_for_hoppie, sent_for_openlink, logon-connects,
}
use openlink.Hoppie.Bridge.Loop
use openlink.Hoppie.Bridge.Survives.{run_bridge-done}
use openlink.Examples.Memory.{Memory, memory, empty, lookup}
use openlink.Examples.Sessions.{station1}
use openlink.Examples.Messages.{bucket, bucket-AllSound, clearance, open_link_of}
use openlink.Examples.Routes.{stations}
use openlink.Examples.Contracts.{memory-Works}

abbrev hash : Text → Text → ℕ
hash from packet = length packet

abbrev callsigns : List Text
callsigns = text "LFPG" ∷ []

abbrev bridge : Bridge (List Sent)
bridge = record { tracker = new_tracker; sequences = no_sequences; world = [] }

abbrev logon : HoppieMessage
logon = record {
  from = text "AFR1";
  msg_type = HoppieMessageType.cpdlc;
  packet = text "/data2/1//Y/REQUEST LOGON";
}

abbrev logon_body : HoppieCpdlcPacket
logon_body = record {
  min = text "1";
  mrn = none;
  response_attr = text "Y";
  body = text "REQUEST LOGON";
}

abbrev wrap : AcarsEnvelope → OpenLinkEnvelope
wrap a = record (open_link_of clearance) { payload = acars a }

abbrev acceptance : OpenLinkEnvelope
acceptance = wrap (accepting (text "AFR1") (text "LFPG"))

logon-connects_example :
    let b1 =
      (handle_hoppie_message recorder hash (text "cid") callsigns logon (text "LFPG") 0 bridge).0 in
    let messages =
      sent_for_hoppie hash (text "cid") callsigns bridge logon (text "LFPG") 0
      ++ (accepting (text "AFR1") (text "LFPG")
          ∷ sent_for_openlink hash (text "cid") callsigns b1 acceptance) in
    active
      (memory.view (handle_all memory (map (λ (a : AcarsEnvelope). (a, wrap a)) messages) empty).0)
      (text "AFR1")
    ≡ some (stage (text "LFPG") true true)
unfolding lookup is_hoppie_seen ◌=t◌ to_uppercase parse_cpdlc_packet strip_prefix trim_end
    trim_start splitn after before is_logon_body is_openlink_seen
logon-connects_example =
    logon-connects memory memory-Works wrap empty hash (text "cid") callsigns bridge logon
      (text "LFPG") 0 logon_body acceptance refl refl refl refl refl refl refl refl refl refl refl

abbrev another : OpenLinkEnvelope
another = record acceptance { id = text "2" }

handle_openlink_message-again_example :
    let first =
      (handle_openlink_message recorder hash (text "cid") callsigns acceptance bridge).0 in
    let later = handle_each recorder hash (text "cid") callsigns (another ∷ []) first in
    handle_openlink_message recorder hash (text "cid") callsigns acceptance later ≡ (later, done)
handle_openlink_message-again_example =
    handle_openlink_message-again recorder hash (text "cid") callsigns acceptance (another ∷ [])
      bridge (omega arith)

run_bridge-done_example :
    (Loop.run_bridge recorder hash
      (text "cid")
      callsigns
      Loop.full
      (Loop.ticked 0 ((text "LFPG", some (logon ∷ [])) ∷ []) ∷ Loop.arrived (some acceptance) ∷ [])
      bridge).1
    ≡ done
run_bridge-done_example =
    run_bridge-done recorder hash (text "cid") callsigns Loop.full
      (Loop.ticked 0 ((text "LFPG", some (logon ∷ [])) ∷ []) ∷ Loop.arrived (some acceptance) ∷ [])
      bridge

abbrev response : Text
response = text "{AFR1 cpdlc {/data2/1//Y/REQUEST LOGON}} {AFR2 telex {HELLO}}"

polled :
    parse_poll_response (text "ok {AFR1 cpdlc {/data2/1//Y/REQUEST LOGON}}") ≡ some (logon ∷ [])
unfolding parse_poll_response ◌=t◌ trim_end trim_start strip_prefix parse_blocks Poll.skip_blanks
    Poll.match_brace Poll.parse_message_block after before Poll.from_str Poll.strip_last
    to_lowercase
polled = refl

-- Nothing is ever delivered.
abbrev silent : Client (Unit {0})
silent = record {
  send_to_station = λ to envelope w. (w, false);
  fresh_id = λ w. text "2";
  clock = λ w. 100;
}

abbrev settings : Settings
settings = record {
  network_id = text "demo";
  lease_ttl = 5;
  auto_end_service_on_station_offline = true;
}

abbrev going_offline : OpenLinkEnvelope
going_offline = record (open_link_of clearance) {
  routing = record {
    source = address (text "demo") (text "net1");
    destination = server (text "demo");
  };
  payload = meta_message (station_status (text "s") offline station1);
}

abbrev start :
    ServerState (Memory CpdlcSession) (Memory StationEntry) (Memory CallsignIndexEntry) (Unit {0})
start = record { sessions = bucket; stores = stations; network = tt }

run-AllSound_example :
    AllSound memory
      (run memory memory memory silent settings
        (Event.arrived (open_link_of clearance) ∷ Event.arrived going_offline ∷ Event.ticked ∷ [])
        start).sessions
run-AllSound_example =
    run-AllSound memory memory memory silent settings
      (Event.arrived (open_link_of clearance) ∷ Event.arrived going_offline ∷ Event.ticked ∷ [])
      start bucket-AllSound
