-- ===== src/Examples/Values.antt =====
-- Levels, attributes, definitions and replies: the theorems on the models at concrete values.
use openlink.Prelude.{
  to_string, ◌≡◌, refl, text, true, none, some, List, [], ◌∷◌, arith, ltb, length, is_some, ◌=t◌,
  strip_prefix, if◌then◌else◌,
}
use openlink.Models.Attribute.{ResponseAttribute, y, r, wu, ne, effective}
use openlink.Models.FlightLevel.{display_level, parse_level, parse_level-display_level}
use openlink.Models.Argument.{CpdlcArgument}
use openlink.Models.Definition.{MessageDefinition, um}
use openlink.Models.Registry.{find_definition}
use openlink.Models.Message.{MessageElement, CpdlcApplicationMessage, render_message}
use openlink.Models.Precedence.{by_precedence, effective-precedence}
use openlink.Models.Consistency.{placeholders, prefix_of, find_definition-consistent}
use openlink.Models.Argument.{ArgType}

parse_level-display_level_example :
    parse_level (display_level 350) ≡ (if ltb 350 1000 then some 350 else none)
parse_level-display_level_example = parse_level-display_level 350 (omega arith)

abbrev mixed : List ResponseAttribute
mixed = y ∷ ne ∷ wu ∷ r ∷ []

effective-precedence_example : effective mixed ≡ by_precedence mixed
effective-precedence_example = effective-precedence mixed

abbrev um20 : MessageDefinition
um20 = um "UM20" "CLIMB TO [level]" (ArgType.level ∷ []) wu true true

find_um20 : find_definition (text "UM20") ≡ some um20
unfolding find_definition ◌=t◌
find_um20 = refl

find_definition-consistent_example :
    (um20.id ≡ text "UM20")
    × (is_some (strip_prefix (prefix_of um20.direction) (text "UM20")) ≡ true)
    × (placeholders um20.template ≡ length um20.args)
find_definition-consistent_example = find_definition-consistent (text "UM20") um20 find_um20

abbrev element_of : MessageElement
element_of = record {
  id = text "UM46";
  args = CpdlcArgument.position (text "REKLA") ∷ CpdlcArgument.level 350 ∷ [];
}

abbrev wilco_message : CpdlcApplicationMessage
wilco_message = record {
  min = 4;
  mrn = some 1;
  elements = record { id = text "DM0"; args = [] } ∷ [];
  timestamp = 0;
}

rendered :
    render_message (record wilco_message { elements = element_of ∷ wilco_message.elements })
    ≡ text "CROSS REKLA AT FL350 / WILCO"
unfolding render_message ◌=t◌ display_level to_string
rendered = refl

abbrev standby_element : MessageElement
standby_element = record { id = text "DM2"; args = [] }
