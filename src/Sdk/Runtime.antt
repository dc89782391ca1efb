-- ===== src/Sdk/Runtime.antt =====
-- crates/openlink-sdk/src/cpdlc_runtime.rs: logical acknowledgements and short responses.
pub mod Replies
use openlink.Prelude.{
  ℕ, ◌≡◌, refl, Text, text, Bool, true, false, not, ◌&&◌, ◌||◌, List, [], ◌∷◌, Option, some, arith,
  any, one_of, filter_map, map_option, ltb, ◌==◌, ◌=t◌, is_some_and,
}
use openlink.Models.Attribute.{
  ResponseAttribute, wu, an, r, y, n, ne, CpdlcResponseIntent, for_attribute, effective,
  downlink_id, uplink_id,
}
use openlink.Models.Definition.{MessageDefinition}
use openlink.Models.Registry.{find_definition}
use openlink.Models.Message.{
  MessageElement, closes_dialogue_response_elements, has_closing_id, has_standby_id,
}

abbrev pub logical_ack_downlink_id : Text
logical_ack_downlink_id = text "DM100"

abbrev pub logical_ack_uplink_id : Text
logical_ack_uplink_id = text "UM227"

unfoldable pub is_logical_ack_element_id : Text → Bool
is_logical_ack_element_id id = one_of id (logical_ack_downlink_id ∷ logical_ack_uplink_id ∷ [])

unfoldable pub message_contains_logical_ack : List MessageElement → Bool
message_contains_logical_ack elements =
    any (λ (e : MessageElement). is_logical_ack_element_id e.id) elements

unfoldable pub should_auto_send_logical_ack : List MessageElement → ℕ → Bool
should_auto_send_logical_ack elements min = ltb 0 min && not (message_contains_logical_ack elements)

unfoldable pub logical_ack_matches_outgoing : ℕ → List MessageElement → Option ℕ → Bool
logical_ack_matches_outgoing outgoing_min incoming_elements incoming_mrn =
    ltb 0 outgoing_min
    && (is_some_and (λ m. m == outgoing_min) incoming_mrn
        && message_contains_logical_ack incoming_elements)

unfoldable pub response_attr_to_intents : ResponseAttribute → List CpdlcResponseIntent
response_attr_to_intents attr = for_attribute attr

-- W/U where no definition is known.
abbrev pub effective_or_wu : List ResponseAttribute → ResponseAttribute
effective_or_wu [] = wu
effective_or_wu (a ∷ attrs) = effective (a ∷ attrs)

unfoldable pub choose_short_response_intents_with_resolver :
    List MessageElement → (Text → Option ResponseAttribute) → List CpdlcResponseIntent
choose_short_response_intents_with_resolver elements resolve_attr =
    response_attr_to_intents
      (effective_or_wu (filter_map (λ (e : MessageElement). resolve_attr e.id) elements))

unfoldable pub choose_short_response_intents : List MessageElement → List CpdlcResponseIntent
choose_short_response_intents elements =
    choose_short_response_intents_with_resolver elements
      (λ id. map_option (λ (d : MessageDefinition). d.response_attr) (find_definition id))
