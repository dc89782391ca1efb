-- ===== src/Gui/Command.antt =====
-- crates/openlink-gui/src/components/atc_view.rs: the commands of the composer.
pub mod Kinds
pub mod Labels
use openlink.Prelude.{
  ℕ, zero, suc, Text, text, Bool, true, false, not, ◌||◌, Option, none, some, List, [], ◌∷◌,
  and_then, map_option, unwrap_or, ltb, leb, ◌=t◌, one_of, is_empty, is_some, trim, to_uppercase,
  strip_prefix, parse_unsigned, map, ◌++◌, if◌then◌else◌,
}
use openlink.Models.Argument.{ArgType, CpdlcArgument}
use openlink.Models.Definition.{MessageDefinition}
use openlink.Models.Registry.{find_definition}
use openlink.Models.FlightLevel.{u16_max}
use openlink.Models.Message.{MessageElement}

-- The buttons and the list of each domain.
abbrev vertical_ids : List Text
vertical_ids =
    text "UM20"
    ∷ text "UM23"
    ∷ text "UM19"
    ∷ text "UM46"
    ∷ text "UM36"
    ∷ text "UM19"
    ∷ text "UM20"
    ∷ text "UM21"
    ∷ text "UM22"
    ∷ text "UM23"
    ∷ text "UM24"
    ∷ text "UM25"
    ∷ text "UM26"
    ∷ text "UM27"
    ∷ text "UM28"
    ∷ text "UM29"
    ∷ text "UM30"
    ∷ text "UM31"
    ∷ text "UM32"
    ∷ text "UM34"
    ∷ text "UM36"
    ∷ text "UM37"
    ∷ text "UM38"
    ∷ text "UM39"
    ∷ text "UM46"
    ∷ text "UM47"
    ∷ text "UM48"
    ∷ text "UM49"
    ∷ text "UM50"
    ∷ text "UM61"
    ∷ text "UM128"
    ∷ text "UM129"
    ∷ text "UM133"
    ∷ text "UM135"
    ∷ text "UM148"
    ∷ text "UM149"
    ∷ []

abbrev lateral_ids : List Text
lateral_ids =
    text "UM74"
    ∷ text "UM80"
    ∷ text "UM81"
    ∷ text "UM92"
    ∷ text "UM190"
    ∷ text "UM51"
    ∷ text "UM52"
    ∷ text "UM53"
    ∷ text "UM54"
    ∷ text "UM55"
    ∷ text "UM61"
    ∷ text "UM64"
    ∷ text "UM67"
    ∷ text "UM74"
    ∷ text "UM79"
    ∷ text "UM80"
    ∷ text "UM81"
    ∷ text "UM82"
    ∷ text "UM92"
    ∷ text "UM94"
    ∷ text "UM96"
    ∷ text "UM130"
    ∷ text "UM190"
    ∷ text "UM215"
    ∷ []

abbrev pub turns : List Text
turns = text "L_TURN_LEFT" ∷ text "L_TURN_RIGHT" ∷ []

unfoldable pub command_domain : Text → Text
command_domain key =
    if one_of key vertical_ids
    then text "vertical"
    else if one_of key lateral_ids || one_of key turns
    then text "lateral"
    else text "other"

unfoldable pub selected_command : Text → Option Text
selected_command key = strip_prefix (text "cmd:") key

unfoldable pub selected_group : Text → Option Text
unfolding selected_command
selected_group key = elim (strip_prefix (text "grp:") key) [
  | some group ↦ some group
  | none ↦ map_option command_domain (selected_command key)
]

abbrev registered_id : Text → Option Text
registered_id key = map_option (λ (d : MessageDefinition). d.id) (find_definition key)

unfoldable pub command_uplink_id : Text → Option Text
command_uplink_id key =
    if one_of key turns
    then some (text "UM94")
    else if is_some (strip_prefix (text "UM") key)
    then registered_id key
    else none

unfoldable pub arg_type_label : ArgType → Text
arg_type_label ArgType.level = text "LEVEL"
arg_type_label ArgType.speed = text "SPEED"
arg_type_label ArgType.time = text "TIME"
arg_type_label ArgType.position = text "POSITION"
arg_type_label ArgType.direction = text "DIRECTION"
arg_type_label ArgType.degrees = text "HEADING"
arg_type_label ArgType.distance = text "DISTANCE"
arg_type_label ArgType.route_clearance = text "ROUTE"
arg_type_label ArgType.procedure_name = text "PROCEDURE"
arg_type_label ArgType.unit_name = text "UNIT"
arg_type_label ArgType.facility_designation = text "FACILITY"
arg_type_label ArgType.frequency = text "FREQUENCY"
arg_type_label ArgType.code = text "CODE"
arg_type_label ArgType.atis_code = text "ATIS"
arg_type_label ArgType.error_info = text "ERROR INFO"
arg_type_label ArgType.free_text = text "TEXT"
arg_type_label ArgType.vertical_rate = text "VERTICAL RATE"
arg_type_label ArgType.altimeter = text "ALTIMETER"
arg_type_label ArgType.leg_type = text "LEG TYPE"
arg_type_label ArgType.position_report = text "POSITION REPORT"
arg_type_label ArgType.remaining_fuel = text "REMAINING FUEL"
arg_type_label ArgType.persons_on_board = text "POB"
arg_type_label ArgType.speed_type = text "SPEED TYPE"
arg_type_label ArgType.departure_clearance = text "DEPARTURE CLR"

-- `args.get(idx)`
abbrev nth : ℕ → List Text → Option Text
nth n [] = none
nth zero (a ∷ args) = some a
nth (suc n) (a ∷ args) = nth n args

abbrev pub nonempty : Text → Option Text
nonempty [] = none
nonempty (c ∷ s) = some (c ∷ s)

unfoldable pub arg_value : List Text → ℕ → Option Text
arg_value args idx = and_then (λ value. nonempty (trim value)) (nth idx args)

abbrev flight_level : ℕ → Option ℕ
flight_level value = if leb 1000 value then none else some value

abbrev level_of_upper : Text → Option ℕ
level_of_upper s = elim (strip_prefix (text "FL") s) [
  | none ↦ parse_unsigned u16_max s
  | some digits ↦ and_then flight_level (parse_unsigned u16_max digits)
]

unfoldable pub parse_level : Text → Option ℕ
parse_level raw = level_of_upper (to_uppercase (trim raw))

-- `parse_argument` on a value that is trimmed and not empty.
unfoldable pub parse_value : ArgType → Text → Option CpdlcArgument
unfolding parse_level
parse_value ArgType.level v = map_option CpdlcArgument.level (parse_level v)
parse_value ArgType.speed v = some (CpdlcArgument.speed v)
parse_value ArgType.time v = some (CpdlcArgument.time v)
parse_value ArgType.position v = some (CpdlcArgument.position (to_uppercase v))
parse_value ArgType.direction v = some (CpdlcArgument.direction (to_uppercase v))
parse_value ArgType.degrees v = map_option CpdlcArgument.degrees (parse_unsigned u16_max v)
parse_value ArgType.distance v = some (CpdlcArgument.distance v)
parse_value ArgType.route_clearance v = some (CpdlcArgument.route_clearance v)
parse_value ArgType.procedure_name v = some (CpdlcArgument.procedure_name v)
parse_value ArgType.unit_name v = some (CpdlcArgument.unit_name v)
parse_value ArgType.facility_designation v = some (CpdlcArgument.facility_designation v)
parse_value ArgType.frequency v = some (CpdlcArgument.frequency v)
parse_value ArgType.code v = some (CpdlcArgument.code v)
parse_value ArgType.atis_code v = some (CpdlcArgument.atis_code v)
parse_value ArgType.error_info v = some (CpdlcArgument.error_info v)
parse_value ArgType.free_text v = some (CpdlcArgument.free_text v)
parse_value ArgType.vertical_rate v = some (CpdlcArgument.vertical_rate v)
parse_value ArgType.altimeter v = some (CpdlcArgument.altimeter v)
parse_value ArgType.leg_type v = some (CpdlcArgument.leg_type v)
parse_value ArgType.position_report v = some (CpdlcArgument.position_report v)
parse_value ArgType.remaining_fuel v = some (CpdlcArgument.remaining_fuel v)
parse_value ArgType.persons_on_board v = some (CpdlcArgument.persons_on_board v)
parse_value ArgType.speed_type v = some (CpdlcArgument.speed_type v)
parse_value ArgType.departure_clearance v = some (CpdlcArgument.departure_clearance v)

unfoldable pub parse_argument : ArgType → Text → Option CpdlcArgument
unfolding parse_value
parse_argument t raw = and_then (parse_value t) (nonempty (trim raw))

-- The loop of `build_command_element` over the kinds of arguments, from the index `idx` on.
unfoldable pub parse_arguments : List ArgType → ℕ → List Text → Option (List CpdlcArgument)
unfolding parse_argument
parse_arguments [] idx args = some []
parse_arguments (t ∷ ts) idx args =
    let rest = parse_arguments ts (suc idx) args in
    and_then (λ a. map_option (λ more. a ∷ more) rest)
      (and_then (parse_argument t) (arg_value args idx))

-- The turns: the direction is that of the command.
abbrev pub turn_arguments : Text → List Text → Option (List CpdlcArgument)
turn_arguments command args =
    map_option
      (λ heading.
        CpdlcArgument.direction
          (if command =t text "L_TURN_LEFT" then text "LEFT" else text "RIGHT")
        ∷ CpdlcArgument.degrees heading
        ∷ [])
      (and_then (parse_unsigned u16_max) (arg_value args 0))

abbrev pub element_for : Text → List Text → Text → MessageDefinition → Option MessageElement
unfolding parse_arguments
element_for command args id def =
    map_option (λ parsed. record { id = id; args = parsed })
      (if one_of command turns
        then turn_arguments command args
        else parse_arguments def.args 0 args)

unfoldable pub build_command_element : Text → List Text → Option MessageElement
unfolding element_for
build_command_element command args =
    and_then (λ id. and_then (element_for command args id) (find_definition id))
      (command_uplink_id command)
