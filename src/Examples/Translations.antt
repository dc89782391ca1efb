-- ===== src/Examples/Translations.antt =====
-- Bodies of Hoppie packets, and the theorems on their translation at concrete messages.
use openlink.Prelude.{
  true, ◌≡◌, refl, text, ◌∷◌, [], some, none, map_option, and_then, to_uppercase, ◌=t◌,
  strip_prefix, trim_start, trim_end, parse_unsigned, parse_digits, arith,
}
use openlink.Models.Attribute.{wu, downlink}
use openlink.Models.Argument.{ArgType, CpdlcArgument}
use openlink.Models.FlightLevel.{parse_level}
use openlink.Models.Definition.{um}
use openlink.Models.Registry.{message_registry}
use openlink.Models.Uplink.{uplink_registry}
use openlink.Models.Downlink.{downlink_registry}
use openlink.Models.Message.{
  MessageElement, CpdlcApplicationMessage, render_message, effective_response_attr,
}
use openlink.Hoppie.Packet.{HoppieCpdlcPacket, parse_cpdlc_packet}
use openlink.Hoppie.Translator.{
  u8_max, match_body_to_element, best_match, try_match_template, extract_values_between_segments,
  values_between, find_text, split_template, scan_template, template_specificity, text_to_argument,
  hoppie_to_openlink, hoppie_ra_to_openlink, packet_of,
}
use openlink.Hoppie.Translator.Template.{try_match_template-adjacent}
use openlink.Hoppie.Translator.Relay.{relayed, hoppie_to_openlink-packet_of}

abbrev request : MessageElement
request = record { id = text "DM9"; args = CpdlcArgument.level 350 ∷ [] }

climb_request : match_body_to_element (text "REQUEST CLIMB TO FL350") downlink ≡ request
unfolding match_body_to_element best_match try_match_template extract_values_between_segments
    values_between find_text split_template scan_template template_specificity text_to_argument
    message_registry uplink_registry downlink_registry to_uppercase ◌=t◌ strip_prefix trim_start
    trim_end parse_level parse_unsigned parse_digits
climb_request = refl

-- A request for a speed is taken for DM6, the request for a level, and not for DM18.
speed_request :
    match_body_to_element (text "REQUEST 250KT") downlink
    ≡ record { id = text "DM6"; args = CpdlcArgument.free_text (text "250KT") ∷ [] }
unfolding match_body_to_element best_match try_match_template extract_values_between_segments
    values_between find_text split_template scan_template template_specificity text_to_argument
    message_registry uplink_registry downlink_registry to_uppercase ◌=t◌ strip_prefix trim_start
    trim_end parse_level parse_unsigned parse_digits
speed_request = refl

try_match_template-adjacent_example :
    try_match_template (text "CONTACT PARIS 123.4") (
      um "UM117" "CONTACT [unit name] [frequency]"
        (ArgType.unit_name ∷ ArgType.frequency ∷ [])
        wu
        true
        true)
    ≡ none
unfolding split_template scan_template trim_start trim_end
try_match_template-adjacent_example =
    try_match_template-adjacent (text "CONTACT PARIS 123.4")
      (um "UM117" "CONTACT [unit name] [frequency]" (ArgType.unit_name ∷ ArgType.frequency ∷ []) wu
        true true)
      ArgType.unit_name (ArgType.frequency ∷ []) (text "CONTACT ") (text " ") (text "" ∷ []) refl
      refl refl refl

abbrev climb_message : CpdlcApplicationMessage
climb_message = record { min = 7; mrn = some 12; elements = request ∷ []; timestamp = 0 }

hoppie_to_openlink-packet_of_example :
    (hoppie_to_openlink (text "AFR123") (text "LFPG") (packet_of climb_message) 3 downlink 5
      ≡ some (
          relayed
            (text "AFR123")
            (text "LFPG")
            3
            (some 12)
            (match_body_to_element (trim_end (render_message climb_message)) downlink)
            5))
    × (and_then
          (λ (p : HoppieCpdlcPacket). parse_unsigned u8_max p.min)
          (parse_cpdlc_packet (packet_of climb_message))
        ≡ some 7)
    × (map_option
          (λ (p : HoppieCpdlcPacket). hoppie_ra_to_openlink p.response_attr)
          (parse_cpdlc_packet (packet_of climb_message))
        ≡ some (effective_response_attr climb_message))
hoppie_to_openlink-packet_of_example =
    hoppie_to_openlink-packet_of (text "AFR123") (text "LFPG") climb_message 3 downlink 5
      (omega arith) (omega arith)
