-- ===== src/Sdk/Client/Acknowledged.antt =====
-- crates/openlink-sdk/src/client.rs and cpdlc_runtime.rs: what the receiver makes of the messages that
-- the client's helpers build, logical acknowledgements or not.
use openlink.Prelude.{
  ℕ, ◌≡◌, refl, inl, inr, Text, Bool, true, false, ◌&&◌, Option, none, some, List, [], ◌∷◌, arith,
  ltb, ◌==◌, ◌=t◌, =t_refl, and_then, map_option, Bool-cases, if◌then◌else◌,
}
use openlink.Models.Message.{
  MessageElement, CpdlcApplicationMessage, CpdlcMessageType, application, meta, AcarsMessage, cpdlc,
  OpenLinkMessage, acars, meta_message,
}
use openlink.Sdk.Runtime.{
  logical_ack_downlink_id, logical_ack_uplink_id, is_logical_ack_element_id,
  message_contains_logical_ack, should_auto_send_logical_ack, logical_ack_matches_outgoing,
}
use openlink.Sdk.Sequence.{MinSequences, next_min_for_session}
use openlink.Sdk.Client.Accepted.{next_min-fits}
use openlink.Sdk.Client.{
  station_sends, aircraft_sends, acknowledges, perform, cpdlc_station_application,
  cpdlc_aircraft_application, cpdlc_logical_ack,
}

abbrev application_type : CpdlcMessageType → Option CpdlcApplicationMessage
application_type (application app) = some app
application_type (meta m) = none

abbrev application_in : AcarsMessage → Option CpdlcApplicationMessage
application_in (cpdlc c) = application_type c.message

abbrev application_of : OpenLinkMessage → Option CpdlcApplicationMessage
application_of (acars a) = application_in a.message
application_of (meta_message m) = none

-- For a receiver that has sent a message with the MIN `outgoing`: whether the message acknowledges
-- that one, and whether it is to be acknowledged itself.
abbrev reading : ℕ → CpdlcApplicationMessage → Bool × Bool
reading outgoing app = (
  logical_ack_matches_outgoing outgoing app.elements app.mrn,
  should_auto_send_logical_ack app.elements app.min,
)

abbrev pub read_by : ℕ → Option OpenLinkMessage → Option (Bool × Bool)
read_by outgoing message = map_option (reading outgoing) (and_then application_of message)

ack-contains :
    (sender aircraft : Text)
    → message_contains_logical_ack (
        record {
          id = if sender =t aircraft then logical_ack_downlink_id else logical_ack_uplink_id;
          args = [];
        }
        ∷ [])
      ≡ true
unfolding message_contains_logical_ack is_logical_ack_element_id
ack-contains sender aircraft = elim (Bool-cases (sender =t aircraft)) [
  | inl p ↦ rw (p, =t_refl logical_ack_downlink_id) refl
  | inr p ↦ rw (p, =t_refl logical_ack_uplink_id) (ground arith)
]

matches-ack :
    (outgoing mrn : ℕ) (elements : List MessageElement)
    → message_contains_logical_ack elements ≡ true
    → logical_ack_matches_outgoing outgoing elements (some mrn) ≡ (ltb 0 mrn && mrn == outgoing)
unfolding logical_ack_matches_outgoing
matches-ack outgoing mrn elements h = ground arith

matches-other :
    (outgoing : ℕ) (elements : List MessageElement) (mrn : Option ℕ)
    → message_contains_logical_ack elements ≡ false
    → logical_ack_matches_outgoing outgoing elements mrn ≡ false
unfolding logical_ack_matches_outgoing
matches-other outgoing elements mrn h = ground arith

wants_ack :
    (sender receiver : Text) (elements : List MessageElement) (m : MinSequences)
    → message_contains_logical_ack elements ≡ false
    → should_auto_send_logical_ack elements (next_min_for_session sender receiver m).1 ≡ true
unfolding should_auto_send_logical_ack
wants_ack sender receiver elements m h = let f = next_min-fits sender receiver m in ground arith

wants_none :
    (elements : List MessageElement) (min : ℕ)
    → message_contains_logical_ack elements ≡ true
    → should_auto_send_logical_ack elements min ≡ false
unfolding should_auto_send_logical_ack
wants_none elements min h = ground arith

-- Whatever the MIN sequences of the client: the acknowledgement that it builds for a received MIN
-- acknowledges, of the messages that the other side has sent, those with this MIN and no other, and
-- none if this MIN is 0; and it is not to be acknowledged itself. Any other application message,
-- whatever its MRN, acknowledges none and is to be acknowledged, sent by a station or an aircraft.
pub perform-read_by :
    (sender receiver aircraft address station : Text) (elements : List MessageElement) (mrn : ℕ)
    (reference : Option ℕ) (now outgoing : ℕ) (m : MinSequences)
    → message_contains_logical_ack elements ≡ false
    → (read_by outgoing (perform (acknowledges sender receiver aircraft address mrn now) m).1
        ≡ some (ltb 0 mrn && mrn == outgoing, false))
      × (read_by outgoing
            (perform (station_sends station aircraft address elements reference now) m).1
          ≡ some (false, true))
      × (read_by outgoing
            (perform (aircraft_sends aircraft address station elements reference now) m).1
          ≡ some (false, true))
unfolding perform cpdlc_logical_ack cpdlc_station_application cpdlc_aircraft_application
perform-read_by sender receiver aircraft address station elements mrn reference now outgoing m h =
    let ack = ack-contains sender aircraft in
    let acknowledged = matches-ack outgoing mrn _ ack in
    let quiet = wants_none _ (next_min_for_session sender receiver m).1 ack in
    let silent = matches-other outgoing elements reference h in
    let up = wants_ack station aircraft elements m h in
    let down = wants_ack aircraft station elements m h in
    (λ i. some (acknowledged i, quiet i), λ i. some (silent i, up i), λ i. some (silent i, down i))
