-- ===== src/Gui/Intents.antt =====
-- crates/openlink-gui/src/components/atc_view.rs: the responses that the controller's view offers, and
-- the messages of a dialogue. Times are in seconds, and `now` is the time of day.
use openlink.Prelude.{
  ℕ, ◌+◌, ◌-◌, ◌/◌, ◌%◌, Text, text, Bool, true, false, not, ◌&&◌, Option, none, some, List, [],
  ◌∷◌, ◌++◌, and_then, map_option, unwrap_or, is_some, is_some_and, leb, ltb, ◌==◌, ◌=t◌, to_string,
  if◌then◌else◌,
}
use openlink.Models.Attribute.{
  CpdlcResponseIntent, wilco, unable, standby, roger, affirm, negative, has_intent,
}
use openlink.Models.Message.{CpdlcApplicationMessage, OpenLinkEnvelope}
use openlink.Sdk.Runtime.{response_attr_to_intents, choose_short_response_intents}
use openlink.Gui.Received.{
  ReceivedMessage, application_of, is_logical_ack, is_logon_line, local_short_response_intent,
  is_closing_response_message,
}

-- `if !intents.contains(&i) { intents.push(i); }`, one after the other.
abbrev pub enriched : List CpdlcResponseIntent → List CpdlcResponseIntent → List CpdlcResponseIntent
enriched intents [] = intents
enriched intents (i ∷ more) =
    enriched (if has_intent i intents then intents else intents ++ (i ∷ [])) more

abbrev attribute_intents : ReceivedMessage → List CpdlcResponseIntent
attribute_intents msg = unwrap_or [] (map_option response_attr_to_intents msg.response_attr)

abbrev application_intents :
    ReceivedMessage → Option CpdlcApplicationMessage → List CpdlcResponseIntent
application_intents msg none = attribute_intents msg
application_intents msg (some app) =
    enriched (choose_short_response_intents app.elements) (attribute_intents msg)

unfoldable pub response_intents_for_message : ReceivedMessage → List CpdlcResponseIntent
response_intents_for_message msg =
    application_intents msg
      (and_then (λ (env : OpenLinkEnvelope). application_of env.payload) msg.envelope)

unfoldable pub action_btn_class : CpdlcResponseIntent → Text
action_btn_class unable = text "action-btn unable"
action_btn_class standby = text "action-btn standby"
action_btn_class _ = text "action-btn"

unfoldable pub is_priority_response_intent : CpdlcResponseIntent → Bool
is_priority_response_intent wilco = true
is_priority_response_intent unable = true
is_priority_response_intent standby = true
is_priority_response_intent _ = false

-- `{n:02}`
abbrev two_digits : ℕ → Text
two_digits n = if ltb n 10 then 48 ∷ to_string n else to_string n

unfoldable pub standby_elapsed_label : ℕ → ℕ → Text
standby_elapsed_label now ts =
    let total = now - ts in two_digits (total / 60) ++ (58 ∷ two_digits (total % 60))

abbrev pub closed_dialogue_retention_secs : ℕ
closed_dialogue_retention_secs = 60

unfoldable pub is_recent_closure_message : ℕ → ReceivedMessage → Bool
is_recent_closure_message now msg =
    is_closing_response_message msg && leb now (msg.timestamp + closed_dialogue_retention_secs)

-- `.iter().copied().find(|i| intents.contains(i))`
abbrev first_of : List CpdlcResponseIntent → List CpdlcResponseIntent → Option CpdlcResponseIntent
first_of [] intents = none
first_of (i ∷ more) intents =
    let rest = first_of more intents in if has_intent i intents then some i else rest

abbrev or_else : {A : Type 0} → Option A → Option A → Option A
or_else none b = b
or_else (some a) b = some a

unfoldable pub closing_flag_intent : ReceivedMessage → Option CpdlcResponseIntent
unfolding response_intents_for_message
closing_flag_intent msg =
    if not (is_closing_response_message msg)
    then none
    else or_else (local_short_response_intent msg) (
        first_of (unable ∷ negative ∷ wilco ∷ roger ∷ affirm ∷ [])
          (response_intents_for_message msg))

unfoldable pub is_positive_closure_intent : CpdlcResponseIntent → Bool
is_positive_closure_intent wilco = true
is_positive_closure_intent roger = true
is_positive_closure_intent affirm = true
is_positive_closure_intent _ = false

unfoldable pub is_dialogue_candidate : ReceivedMessage → Bool
is_dialogue_candidate msg = not (is_logical_ack msg) && (not (is_logon_line msg) && is_some msg.min)

unfoldable pub dialogue_callsign : ReceivedMessage → Option Text
dialogue_callsign msg = if msg.is_outgoing then msg.to_callsign else msg.from_callsign

-- The test of `find_dialogue_message_by_min`.
abbrev pub is_dialogue_message : ℕ → Text → ReceivedMessage → Bool
is_dialogue_message min callsign msg =
    is_some_and (λ m. m == min) msg.min
    && (not (is_logical_ack msg)
        && (not (is_logon_line msg) && is_some_and (λ c. c =t callsign) (dialogue_callsign msg)))

unfoldable pub find_dialogue_message_by_min :
    List ReceivedMessage → ℕ → Text → Option ReceivedMessage
find_dialogue_message_by_min [] min callsign = none
find_dialogue_message_by_min (m ∷ ms) min callsign =
    let rest = find_dialogue_message_by_min ms min callsign in
    if is_dialogue_message min callsign m then some m else rest
