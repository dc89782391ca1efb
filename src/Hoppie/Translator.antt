-- ===== src/Hoppie/Translator.antt =====
-- crates/openlink-hoppie/src/translator.rs: between the packets of Hoppie and the messages of
-- OpenLink. The time of day is an argument; a failure to parse a packet is `none`.
pub mod Template
pub mod Relay
use openlink.Prelude.{
  ℕ, ◌+◌, Text, text, Bool, true, false, not, ◌&&◌, ◌||◌, Option, none, some, List, [], ◌∷◌, length,
  any, ltb, ◌==◌, ◌=t◌, to_uppercase, to_string, parse_unsigned, map_option, and_then, unwrap_or,
  is_empty, trim, trim_start, trim_end, strip_prefix, if◌then◌else◌,
}
use openlink.Models.Attribute.{
  MessageDirection, uplink, downlink, ResponseAttribute, wu, an, r, y, n, ne,
}
use openlink.Models.FlightLevel.{parse_level, u16_max}
use openlink.Models.Argument.{ArgType, CpdlcArgument}
use openlink.Models.Definition.{MessageDefinition}
use openlink.Models.Registry.{message_registry}
use openlink.Models.Message.{
  MessageElement, CpdlcApplicationMessage, application, meta, CpdlcMessageType, CpdlcEnvelope,
  render_message, effective_response_attr,
}
use openlink.Hoppie.Packet.{HoppieCpdlcPacket, parse_cpdlc_packet, format_cpdlc_packet}

abbrev cons_head : ℕ → List Text → List Text
cons_head c [] = (c ∷ []) ∷ []
cons_head c (s ∷ ss) = (c ∷ s) ∷ ss

-- `split_template`, byte by byte: behind a `[` the text up to the next `]` is skipped, and where that
-- is missing no further segment is pushed.
unfoldable pub scan_template : Bool → Text → List Text
scan_template false [] = [] ∷ []
scan_template true [] = []
scan_template false (c ∷ s) =
    let skipped = scan_template true s in
    let kept = scan_template false s in if c == 91 then [] ∷ skipped else cons_head c kept
scan_template true (c ∷ s) =
    let outside = scan_template false s in
    let inside = scan_template true s in if c == 93 then outside else inside

unfoldable pub split_template : Text → List Text
unfolding scan_template
split_template template = scan_template false template

-- `s.find(needle)`, with the text before and behind the match.
unfoldable pub find_text : Text → Text → Option (Text × Text)
find_text needle [] = map_option (λ rest. ([], rest)) (strip_prefix needle [])
find_text needle (c ∷ s) =
    let later = map_option (λ p. (c ∷ p.0, p.1)) (find_text needle s) in
    elim (strip_prefix needle (c ∷ s)) [ none ↦ later | some rest ↦ some ([], rest) ]

-- The value in front of the next segment, where that is found, and what follows it.
abbrev pub value_before : (Text → List Text) → Text → Option (Text × Text) → List Text
value_before more remaining none = trim remaining ∷ []
value_before more remaining (some p) = trim p.0 ∷ more (trim_start p.1)

-- The loop of `extract_values_between_segments` behind the first segment.
unfoldable pub values_between : List Text → Text → List Text
unfolding find_text
values_between [] remaining = []
values_between (seg ∷ segs) remaining =
    let more = values_between segs in
    if is_empty seg
    then trim remaining ∷ more []
    else value_before more remaining (find_text (trim seg) remaining)

unfoldable pub extract_values_between_segments : Text → List Text → List Text
unfolding values_between
extract_values_between_segments body [] = []
extract_values_between_segments body (seg ∷ segs) =
    if is_empty seg then values_between segs body else elim (strip_prefix (trim_end seg) body) [
      | none ↦ []
      | some rest ↦ values_between segs (trim_start rest)
    ]

abbrev level_argument : Text → Option ℕ → CpdlcArgument
level_argument value none = CpdlcArgument.free_text value
level_argument value (some level) = CpdlcArgument.level level

unfoldable pub text_to_argument : Text → ArgType → CpdlcArgument
text_to_argument value ArgType.level = level_argument value (parse_level value)
text_to_argument value ArgType.speed = CpdlcArgument.speed value
text_to_argument value ArgType.time = CpdlcArgument.time value
text_to_argument value ArgType.position = CpdlcArgument.position value
text_to_argument value ArgType.direction = CpdlcArgument.direction value
text_to_argument value ArgType.degrees =
    CpdlcArgument.degrees (unwrap_or 0 (parse_unsigned u16_max value))
text_to_argument value ArgType.distance = CpdlcArgument.distance value
text_to_argument value ArgType.route_clearance = CpdlcArgument.route_clearance value
text_to_argument value ArgType.procedure_name = CpdlcArgument.procedure_name value
text_to_argument value ArgType.unit_name = CpdlcArgument.unit_name value
text_to_argument value ArgType.facility_designation = CpdlcArgument.facility_designation value
text_to_argument value ArgType.frequency = CpdlcArgument.frequency value
text_to_argument value ArgType.code = CpdlcArgument.code value
text_to_argument value ArgType.atis_code = CpdlcArgument.atis_code value
text_to_argument value ArgType.error_info = CpdlcArgument.error_info value
text_to_argument value ArgType.free_text = CpdlcArgument.free_text value
text_to_argument value ArgType.vertical_rate = CpdlcArgument.vertical_rate value
text_to_argument value ArgType.altimeter = CpdlcArgument.altimeter value
text_to_argument value ArgType.leg_type = CpdlcArgument.leg_type value
text_to_argument value ArgType.position_report = CpdlcArgument.position_report value
text_to_argument value ArgType.remaining_fuel = CpdlcArgument.remaining_fuel value
text_to_argument value ArgType.persons_on_board = CpdlcArgument.persons_on_board value
text_to_argument value ArgType.speed_type = CpdlcArgument.speed_type value
text_to_argument value ArgType.departure_clearance = CpdlcArgument.departure_clearance value

-- `values.iter().zip(def.args.iter()).map(…)`
abbrev to_arguments : List Text → List ArgType → List CpdlcArgument
unfolding text_to_argument
to_arguments (v ∷ vs) (t ∷ ts) = text_to_argument v t ∷ to_arguments vs ts
to_arguments _ _ = []

-- `try_match_template` for a template with arguments, on the extracted values.
abbrev of_values : List ArgType → List Text → Option (List CpdlcArgument)
unfolding to_arguments
of_values args values =
    if not (length values == length args)
    then none
    else if any is_empty values
    then none
    else some (to_arguments values args)

abbrev match_args : Text → Text → List ArgType → Option (List CpdlcArgument)
unfolding of_values
match_args body template [] = if to_uppercase body =t to_uppercase template then some [] else none
match_args body template (t ∷ ts) =
    of_values (t ∷ ts) (extract_values_between_segments body (split_template template))

unfoldable pub try_match_template : Text → MessageDefinition → Option (List CpdlcArgument)
unfolding match_args
try_match_template body def = match_args body def.template def.args

abbrev trimmed_length : List Text → ℕ
trimmed_length [] = 0
trimmed_length (s ∷ ss) = length (trim s) + trimmed_length ss

unfoldable pub template_specificity : Text → ℕ
template_specificity template = trimmed_length (split_template template)

abbrev same_direction : MessageDirection → MessageDirection → Bool
same_direction uplink uplink = true
same_direction downlink downlink = true
same_direction _ _ = false

-- The most specific match so far: the definition, its arguments and its specificity.
abbrev pub Match : Type 0
Match = MessageDefinition × List CpdlcArgument × ℕ

abbrev is_better : ℕ → Option Match → Bool
is_better specificity none = true
is_better specificity (some best) = ltb best.2 specificity

abbrev prefer : MessageDefinition → Option (List CpdlcArgument) → Option Match → Option Match
prefer def none best = best
prefer def (some args) best =
    let specificity = template_specificity def.template in
    if is_better specificity best then some (def, args, specificity) else best

-- The loop over the registry.
unfoldable pub best_match :
    Text → MessageDirection → List MessageDefinition → Option Match → Option Match
best_match body direction [] best = best
best_match body direction (def ∷ defs) best =
    let kept = best_match body direction defs best in
    let preferred =
      best_match body direction defs (prefer def (try_match_template body def) best) in
    if same_direction def.direction direction then preferred else kept

abbrev fallback_id : MessageDirection → Text
fallback_id downlink = text "DM67"
fallback_id uplink = text "UM169"

abbrev element_of : Text → MessageDirection → Option Match → MessageElement
element_of body direction (some best) = record { id = best.0.id; args = best.1 }
element_of body direction none = record {
  id = fallback_id direction;
  args = CpdlcArgument.free_text body ∷ [];
}

unfoldable pub match_body_to_element : Text → MessageDirection → MessageElement
unfolding message_registry best_match
match_body_to_element body direction =
    element_of (trim body) direction (best_match (trim body) direction message_registry none)

abbrev pub u8_max : ℕ
u8_max = 255

abbrev envelope_of : Text → Text → ℕ → MessageDirection → ℕ → HoppieCpdlcPacket → CpdlcEnvelope
unfolding match_body_to_element
envelope_of from_callsign to_callsign min direction now packet = record {
  source = from_callsign;
  destination = to_callsign;
  message = application (record {
    min = min;
    mrn = and_then (parse_unsigned u8_max) packet.mrn;
    elements = match_body_to_element packet.body direction ∷ [];
    timestamp = now;
  });
}

unfoldable pub hoppie_to_openlink :
    Text → Text → Text → ℕ → MessageDirection → ℕ → Option CpdlcEnvelope
unfolding envelope_of
hoppie_to_openlink from_callsign to_callsign packet min direction now =
    map_option (envelope_of from_callsign to_callsign min direction now) (parse_cpdlc_packet packet)

unfoldable pub response_attr_to_hoppie : ResponseAttribute → Text
response_attr_to_hoppie wu = text "WU"
response_attr_to_hoppie an = text "AN"
response_attr_to_hoppie r = text "R"
response_attr_to_hoppie y = text "Y"
response_attr_to_hoppie n = text "N"
response_attr_to_hoppie ne = text "NE"

abbrev attribute_of_upper : Text → ResponseAttribute
attribute_of_upper s =
    if s =t text "WU" || s =t text "W/U"
    then wu
    else if s =t text "AN" || s =t text "A/N"
    then an
    else if s =t text "R"
    then r
    else if s =t text "Y"
    then y
    else if s =t text "NE"
    then ne
    else n

unfoldable pub hoppie_ra_to_openlink : Text → ResponseAttribute
hoppie_ra_to_openlink ra = attribute_of_upper (to_uppercase ra)

pub record HoppiePacketOut : Type 0 where
  pub peer : Text
  pub from : Text
  pub packet : Text
  pub min : ℕ

-- The packet of `openlink_to_hoppie`.
unfoldable pub packet_of : CpdlcApplicationMessage → Text
packet_of app =
    format_cpdlc_packet (to_string app.min) (map_option to_string app.mrn)
      (response_attr_to_hoppie (effective_response_attr app)) (render_message app)

abbrev out_of : CpdlcEnvelope → CpdlcMessageType → Option HoppiePacketOut
unfolding packet_of
out_of envelope (meta _) = none
out_of envelope (application app) = some (record {
  peer = envelope.destination;
  from = envelope.source;
  packet = packet_of app;
  min = app.min;
})

unfoldable pub openlink_to_hoppie : CpdlcEnvelope → Option HoppiePacketOut
unfolding out_of
openlink_to_hoppie envelope = out_of envelope envelope.message

unfoldable pub is_logon_body : Text → Bool
is_logon_body body =
    let upper = to_uppercase (trim body) in upper =t text "REQUEST LOGON" || upper =t text "LOGON"

unfoldable pub is_logon_response_body : Text → Option Bool
is_logon_response_body body =
    let upper = to_uppercase (trim body) in
    if upper =t text "LOGON ACCEPTED"
    then some true
    else if upper =t text "LOGON REJECTED"
    then some false
    else none
