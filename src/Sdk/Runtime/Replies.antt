-- ===== src/Sdk/Runtime/Replies.antt =====
-- crates/openlink-sdk/src/cpdlc_runtime.rs: the short responses that are offered for a message, against
-- the replies that the documentation of `ResponseAttribute` (crates/openlink-models/src/cpdlc.rs)
-- gives for each attribute.
use openlink.Prelude.{
  ◌≡◌, refl, ap, Bool, true, false, not, ◌&&◌, List, [], ◌∷◌, Text, Option, filter_map, arith, ◌=t◌,
  ◌∙◌,
}
use openlink.Models.Attribute.{
  ResponseAttribute, r, an, wu, CpdlcResponseIntent, wilco, unable, standby, roger, affirm,
  negative, for_attribute, same_intent, has_intent, downlink_id, uplink_id,
}
use openlink.Models.Precedence.{by_precedence, effective-precedence}
use openlink.Models.Message.{
  MessageElement, closes_dialogue_response_elements, has_closing_id, has_standby_id,
}
use openlink.Sdk.Runtime.{
  effective_or_wu, response_attr_to_intents, choose_short_response_intents_with_resolver,
}

-- The documented replies, as far as they are short responses: Wilco / Unable / Standby, Affirm /
-- Negative / Standby and Roger / Unable / Standby. Y takes a message with the requested data, and N
-- and NE take none.
abbrev pub documented : ResponseAttribute → CpdlcResponseIntent → Bool
documented wu i = has_intent i (wilco ∷ unable ∷ standby ∷ [])
documented an i = has_intent i (affirm ∷ negative ∷ standby ∷ [])
documented r i = has_intent i (roger ∷ unable ∷ standby ∷ [])
documented _ i = false

-- Where the code departs from them: no UNABLE in reply to R.
abbrev pub left_out : ResponseAttribute → CpdlcResponseIntent → Bool
left_out r unable = true
left_out _ _ = false

-- The attribute of a message whose known elements have these attributes: the highest, or W/U where
-- no element is known.
abbrev pub attribute_of : List ResponseAttribute → ResponseAttribute
attribute_of [] = wu
attribute_of (a ∷ attrs) = by_precedence (a ∷ attrs)

abbrev pub known_attributes :
    List MessageElement → (Text → Option ResponseAttribute) → List ResponseAttribute
known_attributes elements resolve_attr =
    filter_map (λ (e : MessageElement). resolve_attr e.id) elements

-- A reply of one element closes the dialogue.
abbrev pub closes : Text → Bool
closes id = closes_dialogue_response_elements (record { id = id; args = [] } ∷ [])

for_attribute-documented :
    (a : ResponseAttribute) (i : CpdlcResponseIntent)
    → has_intent i (for_attribute a) ≡ (documented a i && not (left_out a i))
unfolding for_attribute
for_attribute-documented a i = ground arith

effective_or_wu-attribute_of :
    (attrs : List ResponseAttribute) → effective_or_wu attrs ≡ attribute_of attrs
effective_or_wu-attribute_of [] = refl
effective_or_wu-attribute_of (a ∷ attrs) = effective-precedence (a ∷ attrs)

standby-closes :
    (i : CpdlcResponseIntent)
    → (closes (downlink_id i) ≡ not (same_intent i standby))
      × (closes (uplink_id i) ≡ not (same_intent i standby))
unfolding closes_dialogue_response_elements has_closing_id has_standby_id downlink_id uplink_id ◌=t◌
standby-closes wilco = (refl, refl)
standby-closes unable = (refl, refl)
standby-closes standby = (refl, refl)
standby-closes roger = (refl, refl)
standby-closes affirm = (refl, refl)
standby-closes negative = (refl, refl)

-- A short response is offered for a message exactly if the documentation has it among the replies to
-- the highest attribute of the elements that the resolver knows (W/U where it knows none), but for
-- UNABLE in reply to R, which is documented and not offered. Sent by an aircraft or by a station, a
-- response closes the dialogue exactly if it is not STANDBY.
pub choose_short_response_intents-documented :
    (elements : List MessageElement) (resolve_attr : Text → Option ResponseAttribute)
    (i : CpdlcResponseIntent)
    → let attr = attribute_of (known_attributes elements resolve_attr) in
      (has_intent i (choose_short_response_intents_with_resolver elements resolve_attr)
        ≡ (documented attr i && not (left_out attr i)))
      × (closes (downlink_id i) ≡ not (same_intent i standby))
      × (closes (uplink_id i) ≡ not (same_intent i standby))
unfolding choose_short_response_intents_with_resolver response_attr_to_intents
choose_short_response_intents-documented elements resolve_attr i =
    let attrs = known_attributes elements resolve_attr in
    let (down, up) = standby-closes i in
    (
      ap (λ a. has_intent i (for_attribute a)) (effective_or_wu-attribute_of attrs)
          ∙ for_attribute-documented (attribute_of attrs) i,
      down,
      up,
    )
