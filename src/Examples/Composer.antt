-- ===== src/Examples/Composer.antt =====
-- Concrete inputs of the controller's view (crates/openlink-gui) and the theorems applied to them.
use openlink.Prelude.{
  length, ℕ, to_uppercase, none, false, map, All, ◌≡◌, refl, Text, text, some, List, [], ◌∷◌, ◌=t◌,
  not, is_some, trim_end, trim_start, parse_unsigned, strip_prefix,
}
use openlink.Models.Argument.{CpdlcArgument}
use openlink.Models.Message.{MessageElement}
use openlink.Models.Registry.{find_definition}
use openlink.Gui.Command.{build_command_element, command_uplink_id, arg_value}
use openlink.Gui.Command.Kinds.{IsTyped, build_command_element-IsTyped}
use openlink.Gui.Command.Labels.{command_needs_param}
use openlink.Gui.Command.Labels.Built.{build_command_element-needs_param}
use openlink.Gui.Received.{
  ReceivedMessage, is_logical_ack, is_logon_line, is_closing_response_message, is_standby_message,
}
use openlink.Gui.Intents.{
  is_dialogue_candidate, dialogue_callsign, is_recent_closure_message, response_intents_for_message,
}
use openlink.Gui.Dcdu.{dcdu_wrap_24x4}
use openlink.Gui.Dcdu.Lines.{IsFull, dcdu_wrap_24x4-size}
use openlink.Gui.Pending.{PendingDialogue, build_pending_dialogues}
use openlink.Gui.Pending.Addressed.{Addressed, build_pending_dialogues-Addressed}

abbrev left_turn : MessageElement
left_turn = record {
  id = text "UM94";
  args = CpdlcArgument.direction (text "LEFT") ∷ CpdlcArgument.degrees 270 ∷ [];
}

abbrev entered : List Text
entered = text " 270 " ∷ []

left_turn-built : build_command_element (text "L_TURN_LEFT") entered ≡ some left_turn
unfolding build_command_element ◌=t◌ command_uplink_id find_definition arg_value trim_end trim_start
    parse_unsigned
left_turn-built = refl

build_command_element-IsTyped_example : IsTyped left_turn
build_command_element-IsTyped_example =
    build_command_element-IsTyped (text "L_TURN_LEFT") entered left_turn left_turn-built

climb-known : command_uplink_id (text "UM20") ≡ some (text "UM20")
unfolding command_uplink_id ◌=t◌ find_definition strip_prefix
climb-known = refl

build_command_element-needs_param_example :
    is_some (build_command_element (text "UM20") []) ≡ not (command_needs_param (text "UM20"))
build_command_element-needs_param_example =
    build_command_element-needs_param (text "UM20") (text "UM20") climb-known

-- Two aircraft whose requests have the same MIN.
abbrev request_from : Text → ℕ → ReceivedMessage
request_from cs at_ = record {
  timestamp = at_;
  raw_json = [];
  envelope = none;
  from_callsign = some cs;
  to_callsign = none;
  display_text = some (text "REQUEST CLIMB TO FL350");
  is_outgoing = false;
  min = some 1;
  mrn = none;
  response_attr = none;
  responded = false;
}

abbrev requests : List ReceivedMessage
requests = request_from (text "AFR123") 10 ∷ request_from (text "BAW7") 20 ∷ []

abbrev callsigns : List Text
callsigns = map (λ (c : PendingDialogue). c.aircraft_callsign) (build_pending_dialogues 30 requests)

both-shown : callsigns ≡ text "BAW7" ∷ text "AFR123" ∷ []
unfolding build_pending_dialogues is_dialogue_candidate is_logical_ack to_uppercase strip_prefix
    is_logon_line dialogue_callsign ◌=t◌ is_closing_response_message trim_end trim_start
    is_recent_closure_message is_standby_message response_intents_for_message
both-shown = refl

build_pending_dialogues-Addressed_example :
    All (Addressed requests) (build_pending_dialogues 30 requests)
build_pending_dialogues-Addressed_example = build_pending_dialogues-Addressed 30 requests

abbrev long_word : Text
long_word = text "PROCEED DIRECT ABCDEFGHIJKLMNOPQRSTUVWXYZ"

cut_in_two :
    dcdu_wrap_24x4 long_word
    ≡ text "PROCEED DIRECT          "
      ∷ text "ABCDEFGHIJKLMNOPQRSTUVWX"
      ∷ text "YZ                      "
      ∷ text "                        "
      ∷ []
unfolding dcdu_wrap_24x4 to_uppercase trim_end
cut_in_two = refl

dcdu_wrap_24x4-size_example :
    (length (dcdu_wrap_24x4 long_word) ≡ 4) × All IsFull (dcdu_wrap_24x4 long_word)
dcdu_wrap_24x4-size_example = dcdu_wrap_24x4-size long_word
