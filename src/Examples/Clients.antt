-- ===== src/Examples/Clients.antt =====
-- Subjects, acknowledgements, packets and sequences: the theorems on the client crates at concrete
-- values.
use openlink.Prelude.{
  Text, ◌≡◌, refl, ◌≤◌, text, true, false, none, some, List, [], ◌∷◌, arith, ◌=t◌, length, trim_end,
}
use openlink.Models.Attribute.{r, unable, has_intent, downlink_id, uplink_id}
use openlink.Models.Message.{MessageElement}
use openlink.Sdk.Subjects.{outbox, inbox, parse_outbox_sender, parse_inbox_recipient, parse-subject}
use openlink.Sdk.Runtime.{
  is_logical_ack_element_id, message_contains_logical_ack,
  choose_short_response_intents_with_resolver,
}
use openlink.Sdk.Runtime.Replies.{closes, choose_short_response_intents-documented}
use openlink.Sdk.Client.{perform, acknowledges, station_sends, aircraft_sends}
use openlink.Sdk.Client.Acknowledged.{read_by, perform-read_by}
use openlink.Sdk.Sequence
use openlink.Sdk.Sequence.{next_min_for_session, no_sequences}
use openlink.Hoppie.Packet.{parse_cpdlc_packet, format_cpdlc_packet, parse-format}
use openlink.Hoppie.Tracker.{
  SessionKey, SessionTracker, new_tracker, mark_openlink_seen, is_openlink_seen,
}
use openlink.Hoppie.Tracker.Seen.{is_seen-mark_seen}

parse-subject_example :
    (parse_outbox_sender (outbox (text "demonetwork") (text "a.b")) ≡ some (text "a.b"))
    × (parse_inbox_recipient (inbox (text "demonetwork") (text "a.b")) ≡ some (text "a.b"))
    × (parse_outbox_sender (inbox (text "demonetwork") (text "a.b")) ≡ none)
    × (parse_inbox_recipient (outbox (text "demonetwork") (text "a.b")) ≡ none)
parse-subject_example = parse-subject (text "demonetwork") (text "a.b") refl

abbrev climb : List MessageElement
climb = record { id = text "UM20"; args = [] } ∷ []

no_ack : message_contains_logical_ack climb ≡ false
unfolding message_contains_logical_ack is_logical_ack_element_id ◌=t◌
no_ack = refl

abbrev afr123 : Text
afr123 = text "AFR123"

abbrev lfpg : Text
lfpg = text "LFPG"

perform-read_by_example :
    (read_by 12 (perform (acknowledges lfpg afr123 afr123 (text "1") 12 0) no_sequences).1
      ≡ some (true, false))
    × (read_by 12 (perform (station_sends lfpg afr123 (text "1") climb (some 12) 0) no_sequences).1
        ≡ some (false, true))
    × (read_by 12 (perform (aircraft_sends afr123 (text "1") lfpg climb (some 12) 0) no_sequences).1
        ≡ some (false, true))
perform-read_by_example =
    perform-read_by lfpg afr123 afr123 (text "1") lfpg climb 12 (some 12) 0 12 no_sequences no_ack

-- R: ROGER is offered, and UNABLE is not.
choose_short_response_intents-documented_example :
    (has_intent unable (choose_short_response_intents_with_resolver climb (λ id. some r)) ≡ false)
    × (closes (downlink_id unable) ≡ true)
    × (closes (uplink_id unable) ≡ true)
choose_short_response_intents-documented_example =
    choose_short_response_intents-documented climb (λ id. some r) unable

abbrev calls : List Sequence.Call
calls =
    Sequence.next (text "AFR123") (text "LFPG")
    ∷ Sequence.reset (text "AFR123") (text "LFPG")
    ∷ Sequence.next (text "AFR123") (text "LFPG")
    ∷ Sequence.next (text "AFR123") (text "LFBO")
    ∷ []

next_min_for_session-run_example :
    (next_min_for_session (text "AFR123") (text "LFPG") (Sequence.run calls no_sequences)).1 ≡ 2
unfolding Sequence.since_reset ◌=t◌
next_min_for_session-run_example =
    Sequence.next_min_for_session-run calls (text "AFR123") (text "LFPG")

parse-format_example :
    parse_cpdlc_packet (format_cpdlc_packet (text "5") none (text "WU") (text "CLIMB/FL350 "))
    ≡ some (record {
      min = text "5";
      mrn = none;
      response_attr = text "WU";
      body = text "CLIMB/FL350";
    })
unfolding trim_end
parse-format_example = parse-format (text "5") none (text "WU") (text "CLIMB/FL350 ") refl refl refl

abbrev key : SessionKey
key = record { aircraft = text "AFR123"; station = text "LFPG" }

abbrev seen_one : SessionTracker
seen_one = record new_tracker { seen_openlink_ids = text "m1" ∷ [] }

is_seen-mark_seen_example :
    (length (mark_openlink_seen (text "m2") seen_one).seen_openlink_ids ≤ 10000)
    × (is_openlink_seen (text "m1") (mark_openlink_seen (text "m2") seen_one) ≡ true)
unfolding is_openlink_seen ◌=t◌
is_seen-mark_seen_example = is_seen-mark_seen (text "m2") (text "m1") seen_one (omega arith)
