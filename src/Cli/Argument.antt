-- ===== src/Cli/Argument.antt =====
-- crates/openlink-cli/src/main.rs: `parse_cpdlc_argument`. `none` is an error with its text.
use openlink.Prelude.{Text, Option, some, map_option, parse_unsigned}
use openlink.Models.Argument.{ArgType, CpdlcArgument}
use openlink.Models.FlightLevel.{u16_max, parse_level}

unfoldable pub parse_cpdlc_argument : ArgType → Text → Option CpdlcArgument
parse_cpdlc_argument ArgType.level raw = map_option CpdlcArgument.level (parse_level raw)
parse_cpdlc_argument ArgType.speed raw = some (CpdlcArgument.speed raw)
parse_cpdlc_argument ArgType.time raw = some (CpdlcArgument.time raw)
parse_cpdlc_argument ArgType.position raw = some (CpdlcArgument.position raw)
parse_cpdlc_argument ArgType.direction raw = some (CpdlcArgument.direction raw)
parse_cpdlc_argument ArgType.degrees raw =
    map_option CpdlcArgument.degrees (parse_unsigned u16_max raw)
parse_cpdlc_argument ArgType.distance raw = some (CpdlcArgument.distance raw)
parse_cpdlc_argument ArgType.route_clearance raw = some (CpdlcArgument.route_clearance raw)
parse_cpdlc_argument ArgType.procedure_name raw = some (CpdlcArgument.procedure_name raw)
parse_cpdlc_argument ArgType.unit_name raw = some (CpdlcArgument.unit_name raw)
parse_cpdlc_argument ArgType.facility_designation raw =
    some (CpdlcArgument.facility_designation raw)
parse_cpdlc_argument ArgType.frequency raw = some (CpdlcArgument.frequency raw)
parse_cpdlc_argument ArgType.code raw = some (CpdlcArgument.code raw)
parse_cpdlc_argument ArgType.atis_code raw = some (CpdlcArgument.atis_code raw)
parse_cpdlc_argument ArgType.error_info raw = some (CpdlcArgument.error_info raw)
parse_cpdlc_argument ArgType.free_text raw = some (CpdlcArgument.free_text raw)
parse_cpdlc_argument ArgType.vertical_rate raw = some (CpdlcArgument.vertical_rate raw)
parse_cpdlc_argument ArgType.altimeter raw = some (CpdlcArgument.altimeter raw)
parse_cpdlc_argument ArgType.leg_type raw = some (CpdlcArgument.leg_type raw)
parse_cpdlc_argument ArgType.position_report raw = some (CpdlcArgument.position_report raw)
parse_cpdlc_argument ArgType.remaining_fuel raw = some (CpdlcArgument.remaining_fuel raw)
parse_cpdlc_argument ArgType.persons_on_board raw = some (CpdlcArgument.persons_on_board raw)
parse_cpdlc_argument ArgType.speed_type raw = some (CpdlcArgument.speed_type raw)
parse_cpdlc_argument ArgType.departure_clearance raw = some (CpdlcArgument.departure_clearance raw)
