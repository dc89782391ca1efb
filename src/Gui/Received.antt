-- ===== src/Gui/Received.antt =====
-- crates/openlink-gui/src/components/atc_view.rs: what the controller's view reads off one message of
-- its list. Times are in seconds, and `now` is the time of day.
use openlink.Prelude.{
  ℕ, Text, text, Bool, true, false, not, ◌&&◌, ◌||◌, Option, none, some, List, [], ◌∷◌, any,
  and_then, unwrap_or, is_some, is_some_and, ◌=t◌, to_uppercase, trim, strip_prefix, if◌then◌else◌,
}
use openlink.Models.Attribute.{
  ResponseAttribute, CpdlcResponseIntent, wilco, unable, standby, roger, affirm, negative,
}
use openlink.Models.View.{CpdlcConnectionPhase, connected, logged_on, logon_pending, terminated}
use openlink.Models.Message.{
  MessageElement, CpdlcApplicationMessage, CpdlcMessageType, application, meta, AcarsMessage, cpdlc,
  OpenLinkMessage, acars, meta_message, OpenLinkEnvelope, closes_dialogue_response_elements,
  has_standby_id,
}
use openlink.Sdk.Runtime.{message_contains_logical_ack, logical_ack_matches_outgoing}

pub record ReceivedMessage : Type 0 where
  pub timestamp : ℕ
  pub raw_json : Text
  pub envelope : Option OpenLinkEnvelope
  pub from_callsign : Option Text
  pub to_callsign : Option Text
  pub display_text : Option Text
  pub is_outgoing : Bool
  pub min : Option ℕ
  pub mrn : Option ℕ
  pub response_attr : Option ResponseAttribute
  pub responded : Bool

unfoldable pub phase_status_label : CpdlcConnectionPhase → Text
phase_status_label connected = text "CPDLC CONNECTED"
phase_status_label logon_pending = text "LOGON REQUEST RECEIVED"
phase_status_label logged_on = text "LOGON ACCEPTED (WAITING LINK)"
phase_status_label terminated = text "ACARS ONLY"

-- `str::contains`
unfoldable pub contains_text : Text → Text → Bool
contains_text needle [] = is_some (strip_prefix needle [])
contains_text needle (c ∷ s) = is_some (strip_prefix needle (c ∷ s)) || contains_text needle s

abbrev application_type : CpdlcMessageType → Option CpdlcApplicationMessage
application_type (application app) = some app
application_type (meta m) = none

abbrev application_message : AcarsMessage → Option CpdlcApplicationMessage
application_message (cpdlc c) = application_type c.message

-- The application message of a payload: what every helper takes apart with `let … else`.
abbrev pub application_of : OpenLinkMessage → Option CpdlcApplicationMessage
application_of (acars a) = application_message a.message
application_of (meta_message m) = none

-- A test on the elements of the message that the envelope carries.
abbrev pub elements_pass : (List MessageElement → Bool) → OpenLinkEnvelope → Bool
elements_pass test env =
    is_some_and (λ (app : CpdlcApplicationMessage). test app.elements) (application_of env.payload)

abbrev upper_text : ReceivedMessage → Text
upper_text msg = to_uppercase (unwrap_or [] msg.display_text)

unfoldable pub is_logical_ack : ReceivedMessage → Bool
unfolding contains_text
is_logical_ack msg = elim msg.envelope [
  | none ↦ contains_text (text "LOGICAL ACKNOWLEDGMENT") (upper_text msg)
  | some env ↦ elements_pass message_contains_logical_ack env
]

abbrev intent_of_text : Text → Option CpdlcResponseIntent
intent_of_text s =
    if s =t text "WILCO"
    then some wilco
    else if s =t text "UNABLE"
    then some unable
    else if s =t text "STANDBY"
    then some standby
    else if s =t text "ROGER"
    then some roger
    else if s =t text "AFFIRM"
    then some affirm
    else if s =t text "NEGATIVE"
    then some negative
    else none

unfoldable pub local_short_response_intent : ReceivedMessage → Option CpdlcResponseIntent
local_short_response_intent msg =
    and_then (λ t. intent_of_text (to_uppercase (trim t))) msg.display_text

-- The closure of `has_lack_for_outgoing` on one acknowledgement.
abbrev acknowledges : ℕ → ReceivedMessage → Bool
acknowledges min ack =
    not ack.is_outgoing
    && is_some_and
        (λ (env : OpenLinkEnvelope).
          is_some_and
            (λ (app : CpdlcApplicationMessage).
              logical_ack_matches_outgoing min app.elements app.mrn)
            (application_of env.payload))
        ack.envelope

unfoldable pub has_lack_for_outgoing : ReceivedMessage → List ReceivedMessage → Bool
has_lack_for_outgoing msg messages =
    msg.is_outgoing && is_some_and (λ min. any (acknowledges min) messages) msg.min

unfoldable pub is_logon_line : ReceivedMessage → Bool
unfolding contains_text
is_logon_line msg = contains_text (text "LOGON") (upper_text msg)

unfoldable pub should_track_lack : ReceivedMessage → Bool
unfolding is_logical_ack is_logon_line
should_track_lack msg =
    msg.is_outgoing
    && (is_some msg.to_callsign && (not (is_logical_ack msg) && not (is_logon_line msg)))

abbrev closes_locally : CpdlcResponseIntent → Bool
closes_locally standby = false
closes_locally _ = true

unfoldable pub is_closing_response_message : ReceivedMessage → Bool
unfolding local_short_response_intent
is_closing_response_message msg = elim msg.envelope [
  | none ↦ is_some_and closes_locally (local_short_response_intent msg)
  | some env ↦ elements_pass closes_dialogue_response_elements env
]

unfoldable pub is_standby_message : ReceivedMessage → Bool
is_standby_message msg = elim msg.envelope [
  | none ↦ is_some_and (λ t. to_uppercase (trim t) =t text "STANDBY") msg.display_text
  | some env ↦ elements_pass (any has_standby_id) env
]
