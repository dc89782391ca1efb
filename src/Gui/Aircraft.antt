-- ===== src/Gui/Aircraft.antt =====
-- crates/openlink-gui/src/components/a320_view.rs and dcdu_view.rs: what the views of the aircraft
-- read off the messages and the fields of a request. Times are in seconds.
use openlink.Prelude.{
  ℕ, refl, Text, text, Bool, not, ◌&&◌, ◌||◌, Option, none, some, List, [], ◌∷◌, any, and_then,
  map_option, unwrap_or, is_some, is_some_and, ◌==◌, trim, to_uppercase, parse_unsigned, is_digit,
  OnSome, if◌then◌else◌,
}
use openlink.Models.Argument.{ArgType, CpdlcArgument, arg_type}
use openlink.Models.Attribute.{ResponseAttribute, y, CpdlcResponseIntent, unable, standby}
use openlink.Models.FlightLevel.{u16_max}
use openlink.Models.Message.{CpdlcApplicationMessage, OpenLinkEnvelope}
use openlink.Sdk.Runtime.{response_attr_to_intents, choose_short_response_intents}
use openlink.Gui.Received.{ReceivedMessage, application_of}
use openlink.Gui.Command.{nonempty}
use openlink.Gui.Command.Kinds.{OnSome-map, OnSome-then, Has}

unfoldable pub arg_label : ArgType → Text
arg_label ArgType.level = text "Level"
arg_label ArgType.speed = text "Speed"
arg_label ArgType.time = text "Time"
arg_label ArgType.position = text "Position"
arg_label ArgType.direction = text "Direction"
arg_label ArgType.degrees = text "Degrees"
arg_label ArgType.distance = text "Distance"
arg_label ArgType.route_clearance = text "Route"
arg_label ArgType.procedure_name = text "Procedure"
arg_label ArgType.unit_name = text "Unit"
arg_label ArgType.facility_designation = text "Facility"
arg_label ArgType.frequency = text "Frequency"
arg_label ArgType.code = text "Code"
arg_label ArgType.atis_code = text "ATIS"
arg_label ArgType.error_info = text "Error"
arg_label ArgType.free_text = text "Text"
arg_label ArgType.vertical_rate = text "V/S"
arg_label ArgType.altimeter = text "Altimeter"
arg_label ArgType.leg_type = text "Leg"
arg_label ArgType.position_report = text "Pos report"
arg_label ArgType.remaining_fuel = text "Fuel"
arg_label ArgType.persons_on_board = text "POB"
arg_label ArgType.speed_type = text "Speed type"
arg_label ArgType.departure_clearance = text "Dep clr"

-- The clauses of both `parse_arg`, which differ in how they read a level.
unfoldable pub argument_with : (Text → Option ℕ) → ArgType → Text → Option CpdlcArgument
argument_with read_level ArgType.level v = map_option CpdlcArgument.level (read_level v)
argument_with read_level ArgType.degrees v =
    map_option CpdlcArgument.degrees (parse_unsigned u16_max v)
argument_with read_level ArgType.speed v = some (CpdlcArgument.speed v)
argument_with read_level ArgType.time v = some (CpdlcArgument.time v)
argument_with read_level ArgType.position v = some (CpdlcArgument.position v)
argument_with read_level ArgType.direction v = some (CpdlcArgument.direction v)
argument_with read_level ArgType.distance v = some (CpdlcArgument.distance v)
argument_with read_level ArgType.route_clearance v = some (CpdlcArgument.route_clearance v)
argument_with read_level ArgType.procedure_name v = some (CpdlcArgument.procedure_name v)
argument_with read_level ArgType.unit_name v = some (CpdlcArgument.unit_name v)
argument_with read_level ArgType.facility_designation v =
    some (CpdlcArgument.facility_designation v)
argument_with read_level ArgType.frequency v = some (CpdlcArgument.frequency v)
argument_with read_level ArgType.code v = some (CpdlcArgument.code v)
argument_with read_level ArgType.atis_code v = some (CpdlcArgument.atis_code v)
argument_with read_level ArgType.error_info v = some (CpdlcArgument.error_info v)
argument_with read_level ArgType.free_text v = some (CpdlcArgument.free_text v)
argument_with read_level ArgType.vertical_rate v = some (CpdlcArgument.vertical_rate v)
argument_with read_level ArgType.altimeter v = some (CpdlcArgument.altimeter v)
argument_with read_level ArgType.leg_type v = some (CpdlcArgument.leg_type v)
argument_with read_level ArgType.position_report v = some (CpdlcArgument.position_report v)
argument_with read_level ArgType.remaining_fuel v = some (CpdlcArgument.remaining_fuel v)
argument_with read_level ArgType.persons_on_board v = some (CpdlcArgument.persons_on_board v)
argument_with read_level ArgType.speed_type v = some (CpdlcArgument.speed_type v)
argument_with read_level ArgType.departure_clearance v = some (CpdlcArgument.departure_clearance v)

-- `parse_arg` of the display unit.
unfoldable pub parse_arg : ArgType → Text → Option CpdlcArgument
unfolding argument_with
parse_arg arg value = and_then (argument_with (parse_unsigned u16_max) arg) (nonempty (trim value))

-- `replace("FL", "")`
abbrev without_fl : Text → Text
without_fl [] = []
without_fl (c ∷ []) = c ∷ []
without_fl (c ∷ d ∷ s) =
    let skipped = without_fl s in
    let kept = without_fl (d ∷ s) in if c == 70 && d == 76 then skipped else c ∷ kept

abbrev level_with_fl : Text → Option ℕ
level_with_fl v = parse_unsigned u16_max (without_fl (to_uppercase v))

-- `parse_arg` of the A320.
unfoldable pub parse_arg_of_a320 : ArgType → Text → Option CpdlcArgument
unfolding argument_with
parse_arg_of_a320 arg value = and_then (argument_with level_with_fl arg) (nonempty (trim value))

argument_with-Has :
    (read_level : Text → Option ℕ) (t : ArgType) (v : Text)
    → OnSome (Has t) (argument_with read_level t v)
unfolding argument_with arg_type
argument_with-Has read_level ArgType.level v =
    OnSome-map (Has ArgType.level) CpdlcArgument.level (read_level v) (λ a. refl)
argument_with-Has read_level ArgType.degrees v =
    OnSome-map (Has ArgType.degrees) CpdlcArgument.degrees (parse_unsigned u16_max v) (λ a. refl)
argument_with-Has read_level _ v = refl

-- An argument that either view reads is of the kind that it was asked for.
pub parse_arg-Has :
    (t : ArgType) (value : Text)
    → OnSome (Has t) (parse_arg t value) × OnSome (Has t) (parse_arg_of_a320 t value)
unfolding parse_arg parse_arg_of_a320
parse_arg-Has t value = (
  OnSome-then (Has t) (argument_with (parse_unsigned u16_max) t) (nonempty (trim value))
      (argument_with-Has (parse_unsigned u16_max) t),
  OnSome-then (Has t) (argument_with level_with_fl t) (nonempty (trim value))
      (argument_with-Has level_with_fl t),
)

abbrev from_digit : Text → Text
from_digit [] = []
from_digit (c ∷ s) = if is_digit c then c ∷ s else from_digit s

unfoldable pub message_numeric_id : Text → ℕ
message_numeric_id id = unwrap_or u16_max (parse_unsigned u16_max (from_digit id))

-- The message is an uplink that `m` refers to.
abbrev linked_to : ReceivedMessage → ReceivedMessage → Bool
linked_to m u =
    not u.is_outgoing
    && (is_some u.min
        && (is_some_and (λ min. is_some_and (λ mrn. min == mrn) m.mrn) u.min
            && not (u.timestamp == m.timestamp)))

abbrev is_visible : List ReceivedMessage → ReceivedMessage → Bool
is_visible messages m = not (is_some m.mrn) || not (any (linked_to m) messages)

abbrev visible_among : List ReceivedMessage → List ReceivedMessage → List ReceivedMessage
visible_among messages [] = []
visible_among messages (m ∷ ms) =
    let rest = visible_among messages ms in if is_visible messages m then m ∷ rest else rest

unfoldable pub root_visible_messages : List ReceivedMessage → List ReceivedMessage
root_visible_messages messages = visible_among messages messages

abbrev intents_of_attribute : ResponseAttribute → List CpdlcResponseIntent
intents_of_attribute y = unable ∷ standby ∷ []
intents_of_attribute attr = response_attr_to_intents attr

unfoldable pub shown_intents : ReceivedMessage → List CpdlcResponseIntent
shown_intents msg = elim msg.response_attr [
  | some attr ↦ intents_of_attribute attr
  | none ↦ unwrap_or [] (
      map_option (λ (app : CpdlcApplicationMessage). choose_short_response_intents app.elements)
        (and_then (λ (env : OpenLinkEnvelope). application_of env.payload) msg.envelope))
]
