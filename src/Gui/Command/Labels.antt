-- ===== src/Gui/Command/Labels.antt =====
-- crates/openlink-gui/src/components/atc_view.rs: the labels of the commands, and the parameters that
-- the composer asks for.
pub mod Built
use openlink.Prelude.{
  ℕ, Text, text, Bool, true, false, not, Option, none, some, List, [], ◌∷◌, ◌++◌, map, ◌=t◌, one_of,
  if◌then◌else◌,
}
use openlink.Models.Argument.{ArgType}
use openlink.Models.Definition.{MessageDefinition}
use openlink.Models.Registry.{find_definition}
use openlink.Gui.Command.{turns, command_uplink_id, arg_type_label}

unfoldable pub arg_type_placeholder : ArgType → Text
arg_type_placeholder ArgType.level = text "Altitude / Niveau de vol (ex: FL350, 350, 12000)"
arg_type_placeholder ArgType.speed = text "Vitesse (ex: M.78, 280KT)"
arg_type_placeholder ArgType.time = text "Heure (ex: 1215)"
arg_type_placeholder ArgType.position = text "Position / Waypoint (ex: BOBIK, LFPG)"
arg_type_placeholder ArgType.direction = text "Direction (LEFT/RIGHT)"
arg_type_placeholder ArgType.degrees = text "Cap (ex: 270)"
arg_type_placeholder ArgType.distance = text "Distance (ex: 20NM)"
arg_type_placeholder ArgType.route_clearance = text "Route (ex: BOBIK DCT LGL UN872)"
arg_type_placeholder ArgType.procedure_name = text "Nom procedure"
arg_type_placeholder ArgType.unit_name = text "Unite (ex: PARIS CONTROL)"
arg_type_placeholder ArgType.facility_designation = text "Designation unite"
arg_type_placeholder ArgType.frequency = text "Frequence (ex: 132.700)"
arg_type_placeholder ArgType.code = text "Code transpondeur (ex: 6421)"
arg_type_placeholder ArgType.atis_code = text "Code ATIS"
arg_type_placeholder ArgType.error_info = text "Information d'erreur"
arg_type_placeholder ArgType.free_text = text "Texte libre"
arg_type_placeholder ArgType.vertical_rate = text "Taux vertical"
arg_type_placeholder ArgType.altimeter = text "Reglage altimetrique"
arg_type_placeholder ArgType.leg_type = text "Type de segment"
arg_type_placeholder ArgType.position_report = text "Compte-rendu de position"
arg_type_placeholder ArgType.remaining_fuel = text "Carburant restant"
arg_type_placeholder ArgType.persons_on_board = text "Nombre de personnes a bord"
arg_type_placeholder ArgType.speed_type = text "Type de vitesse"
arg_type_placeholder ArgType.departure_clearance = text "Clairance depart"

unfoldable pub command_button_label : Text → Text
command_button_label key =
    if key =t text "UM20"
    then text "CLIMB TO"
    else if key =t text "UM23"
    then text "DESCEND TO"
    else if key =t text "UM19"
    then text "MAINTAIN"
    else if key =t text "UM46"
    then text "CROSS AT"
    else if key =t text "UM36"
    then text "EXPEDITE CLB"
    else if key =t text "UM74"
    then text "DIRECT TO"
    else if key =t text "UM80"
    then text "CLEARED ROUTE"
    else if key =t text "UM81"
    then text "CLEARED PROC"
    else if key =t text "UM92"
    then text "HOLD"
    else if key =t text "UM190"
    then text "HEADING"
    else if key =t text "UM169"
    then text "FREE TEXT"
    else if key =t text "UM117"
    then text "CONTACT"
    else if key =t text "UM120"
    then text "MONITOR"
    else if key =t text "UM106"
    then text "MAINTAIN SPD"
    else if key =t text "UM116"
    then text "RESUME SPD"
    else text "???"

-- The template of a definition, or else the identifier.
abbrev pub template_or : Text → Text
template_or id = elim (find_definition id) [ none ↦ id | some def ↦ def.template ]

-- The dash is that of the source, in UTF-8.
unfoldable pub command_dropdown_label : Text → Text
command_dropdown_label um_id = elim (find_definition um_id) [
  | none ↦ um_id
  | some def ↦ um_id ++ (32 ∷ 226 ∷ 128 ∷ 148 ∷ 32 ∷ def.template)
]

unfoldable pub command_label : Text → Text
command_label key =
    if key =t text "L_TURN_LEFT"
    then text "TURN LEFT HEADING [degrees]"
    else if key =t text "L_TURN_RIGHT"
    then text "TURN RIGHT HEADING [degrees]"
    else elim (command_uplink_id key) [ none ↦ text "UNKNOWN" | some id ↦ template_or id ]

abbrev pub arg_specs : List ArgType → List (Text × Text)
arg_specs [] = []
arg_specs (t ∷ ts) = (arg_type_label t, arg_type_placeholder t) ∷ arg_specs ts

abbrev pub specs_for : Option MessageDefinition → List (Text × Text)
specs_for none = []
specs_for (some def) = arg_specs def.args

unfoldable pub command_param_specs : Text → List (Text × Text)
command_param_specs key =
    if one_of key turns
    then (text "HEADING", text "Cap (ex: 270)") ∷ []
    else elim (command_uplink_id key) [ none ↦ [] | some id ↦ specs_for (find_definition id) ]

abbrev pub has_specs : List (Text × Text) → Bool
has_specs [] = false
has_specs (s ∷ specs) = true

-- `!command_param_specs(key).is_empty()`
unfoldable pub command_needs_param : Text → Bool
unfolding command_param_specs
command_needs_param key = has_specs (command_param_specs key)
