-- ===== src/Models/Argument.antt =====
-- crates/openlink-models/src/cpdlc.rs: argument kinds and argument values.
use openlink.Prelude.{ℕ, Text, Bool, to_string}
use openlink.Models.FlightLevel.{display_level}

pub data ArgType : Type 0 where
  level speed time position direction degrees distance route_clearance : ArgType
  procedure_name unit_name facility_designation frequency code atis_code error_info free_text :
      ArgType
  vertical_rate altimeter leg_type position_report remaining_fuel persons_on_board speed_type
        departure_clearance :
      ArgType

-- `level` and `degrees` hold a `u16`, every other constructor a text.
pub data CpdlcArgument : Type 0 where
  level degrees : ℕ → CpdlcArgument
  speed time position direction distance route_clearance procedure_name unit_name :
      Text → CpdlcArgument
  facility_designation frequency code atis_code error_info free_text vertical_rate :
      Text → CpdlcArgument
  altimeter leg_type position_report remaining_fuel persons_on_board speed_type
        departure_clearance :
      Text → CpdlcArgument

unfoldable pub arg_type : CpdlcArgument → ArgType
arg_type (CpdlcArgument.level _) = ArgType.level
arg_type (CpdlcArgument.speed _) = ArgType.speed
arg_type (CpdlcArgument.time _) = ArgType.time
arg_type (CpdlcArgument.position _) = ArgType.position
arg_type (CpdlcArgument.direction _) = ArgType.direction
arg_type (CpdlcArgument.degrees _) = ArgType.degrees
arg_type (CpdlcArgument.distance _) = ArgType.distance
arg_type (CpdlcArgument.route_clearance _) = ArgType.route_clearance
arg_type (CpdlcArgument.procedure_name _) = ArgType.procedure_name
arg_type (CpdlcArgument.unit_name _) = ArgType.unit_name
arg_type (CpdlcArgument.facility_designation _) = ArgType.facility_designation
arg_type (CpdlcArgument.frequency _) = ArgType.frequency
arg_type (CpdlcArgument.code _) = ArgType.code
arg_type (CpdlcArgument.atis_code _) = ArgType.atis_code
arg_type (CpdlcArgument.error_info _) = ArgType.error_info
arg_type (CpdlcArgument.free_text _) = ArgType.free_text
arg_type (CpdlcArgument.vertical_rate _) = ArgType.vertical_rate
arg_type (CpdlcArgument.altimeter _) = ArgType.altimeter
arg_type (CpdlcArgument.leg_type _) = ArgType.leg_type
arg_type (CpdlcArgument.position_report _) = ArgType.position_report
arg_type (CpdlcArgument.remaining_fuel _) = ArgType.remaining_fuel
arg_type (CpdlcArgument.persons_on_board _) = ArgType.persons_on_board
arg_type (CpdlcArgument.speed_type _) = ArgType.speed_type
arg_type (CpdlcArgument.departure_clearance _) = ArgType.departure_clearance

-- `impl Display for CpdlcArgument`
unfoldable pub display_argument : CpdlcArgument → Text
display_argument (CpdlcArgument.level v) = display_level v
display_argument (CpdlcArgument.speed v) = v
display_argument (CpdlcArgument.time v) = v
display_argument (CpdlcArgument.position v) = v
display_argument (CpdlcArgument.direction v) = v
display_argument (CpdlcArgument.degrees v) = to_string v
display_argument (CpdlcArgument.distance v) = v
display_argument (CpdlcArgument.route_clearance v) = v
display_argument (CpdlcArgument.procedure_name v) = v
display_argument (CpdlcArgument.unit_name v) = v
display_argument (CpdlcArgument.facility_designation v) = v
display_argument (CpdlcArgument.frequency v) = v
display_argument (CpdlcArgument.code v) = v
display_argument (CpdlcArgument.atis_code v) = v
display_argument (CpdlcArgument.error_info v) = v
display_argument (CpdlcArgument.free_text v) = v
display_argument (CpdlcArgument.vertical_rate v) = v
display_argument (CpdlcArgument.altimeter v) = v
display_argument (CpdlcArgument.leg_type v) = v
display_argument (CpdlcArgument.position_report v) = v
display_argument (CpdlcArgument.remaining_fuel v) = v
display_argument (CpdlcArgument.persons_on_board v) = v
display_argument (CpdlcArgument.speed_type v) = v
display_argument (CpdlcArgument.departure_clearance v) = v

-- `matches!(arg_type, ArgType::FreeText)`
abbrev pub is_free_text : ArgType → Bool
is_free_text free_text = Bool.true
is_free_text _ = Bool.false
