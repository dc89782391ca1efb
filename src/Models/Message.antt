-- ===== src/Models/Message.antt =====
-- crates/openlink-models/src/cpdlc.rs, acars.rs and envelope.rs: messages and their envelopes.
use openlink.Prelude.{
  ℕ, Text, text, Bool, false, not, ◌&&◌, List, [], ◌∷◌, ◌++◌, map, Option, none, some, any, one_of,
  filter_map, map_option,
}
use openlink.Models.Endpoint.{
  AcarsEndpointCallsign, AcarsRoutingEndpoint, MetaMessage, OpenLinkRouting,
}
use openlink.Models.Attribute.{ResponseAttribute, effective}
use openlink.Models.Argument.{CpdlcArgument}
use openlink.Models.Definition.{MessageDefinition, render_definition}
use openlink.Models.Registry.{find_definition}
use openlink.Models.View.{CpdlcSessionView}

pub record MessageElement : Type 0 where
  pub id : Text
  pub args : List CpdlcArgument

abbrev pub definition : MessageElement → Option MessageDefinition
definition e = find_definition e.id

abbrev render_with : Option MessageDefinition → MessageElement → Text
render_with none e = text "[UNKNOWN " ++ (e.id ++ text "]")
render_with (some def) e = render_definition def e.args

-- `MessageElement::render`
unfoldable pub render_element : MessageElement → Text
unfolding find_definition render_definition
render_element e = render_with (find_definition e.id) e

-- `min` and `mrn` are `u8`; `timestamp` is an instant of UTC.
pub record CpdlcApplicationMessage : Type 0 where
  pub min : ℕ
  pub mrn : Option ℕ
  pub elements : List MessageElement
  pub timestamp : ℕ

abbrev attribute_of : MessageElement → Option ResponseAttribute
attribute_of e = map_option (λ (d : MessageDefinition). d.response_attr) (definition e)

-- `CpdlcApplicationMessage::effective_response_attr`
unfoldable pub effective_response_attr : CpdlcApplicationMessage → ResponseAttribute
unfolding effective
effective_response_attr msg = effective (filter_map attribute_of msg.elements)

-- `join(" / ")`
abbrev pub join_slash : List Text → Text
join_slash [] = []
join_slash (t ∷ []) = t
join_slash (t ∷ u ∷ ts) = t ++ (text " / " ++ join_slash (u ∷ ts))

-- `CpdlcApplicationMessage::render`
unfoldable pub render_message : CpdlcApplicationMessage → Text
unfolding render_element
render_message msg = join_slash (map render_element msg.elements)

abbrev pub closing_ids : List Text
closing_ids =
    text "DM0"
    ∷ text "DM1"
    ∷ text "DM3"
    ∷ text "DM4"
    ∷ text "DM5"
    ∷ text "UM0"
    ∷ text "UM3"
    ∷ text "UM4"
    ∷ text "UM5"
    ∷ []

abbrev pub standby_ids : List Text
standby_ids = text "DM2" ∷ text "UM1" ∷ text "UM2" ∷ []

unfoldable pub has_closing_id : MessageElement → Bool
has_closing_id e = one_of e.id closing_ids

unfoldable pub has_standby_id : MessageElement → Bool
has_standby_id e = one_of e.id standby_ids

-- The body of `is_closing_response` and of `is_standby`: the only element passes the test.
abbrev pub single : (MessageElement → Bool) → List MessageElement → Bool
single p (e ∷ []) = p e
single p _ = false

unfoldable pub is_closing_response : CpdlcApplicationMessage → Bool
is_closing_response msg = single has_closing_id msg.elements

unfoldable pub is_standby : CpdlcApplicationMessage → Bool
is_standby msg = single has_standby_id msg.elements

unfoldable pub closes_dialogue_response_elements : List MessageElement → Bool
closes_dialogue_response_elements elements =
    any has_closing_id elements && not (any has_standby_id elements)

pub data CpdlcMetaMessage : Type 0 where
  logon_request : AcarsEndpointCallsign → Text → Text → CpdlcMetaMessage
  logon_response : Bool → CpdlcMetaMessage
  connection_request : CpdlcMetaMessage
  connection_response : Bool → CpdlcMetaMessage
  logon_forward : AcarsEndpointCallsign → Text → Text → AcarsEndpointCallsign → CpdlcMetaMessage
  session_update : CpdlcSessionView → CpdlcMetaMessage

pub data CpdlcMessageType : Type 0 where
  application : CpdlcApplicationMessage → CpdlcMessageType
  meta : CpdlcMetaMessage → CpdlcMessageType

pub record CpdlcEnvelope : Type 0 where
  pub source : AcarsEndpointCallsign
  pub destination : AcarsEndpointCallsign
  pub message : CpdlcMessageType

-- `AcarsMessage` has one variant, `CPDLC`.
pub data AcarsMessage : Type 0 where
  cpdlc : CpdlcEnvelope → AcarsMessage

-- `AcarsRouting` is a struct of the one field `aircraft`.
pub record AcarsEnvelope : Type 0 where
  pub aircraft : AcarsRoutingEndpoint
  pub message : AcarsMessage

pub data OpenLinkMessage : Type 0 where
  acars : AcarsEnvelope → OpenLinkMessage
  meta_message : MetaMessage → OpenLinkMessage

-- `id` is the text of the UUID.
pub record OpenLinkEnvelope : Type 0 where
  pub id : Text
  pub timestamp : ℕ
  pub correlation_id : Option Text
  pub routing : OpenLinkRouting
  pub payload : OpenLinkMessage
  pub token : Text
