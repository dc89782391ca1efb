-- ===== src/Models/Definition.antt =====
-- crates/openlink-models/src/cpdlc.rs: `MessageDefinition` and the rendering of its template.
use openlink.Prelude.{
  ℕ, Text, text, String, Bool, List, [], ◌∷◌, ◌++◌, Option, none, some, ◌==◌, map_option,
  if◌then◌else◌,
}
use openlink.Models.Attribute.{MessageDirection, uplink, downlink, ResponseAttribute}
use openlink.Models.Argument.{ArgType, CpdlcArgument, display_argument}

pub record MessageDefinition : Type 0 where
  pub id : Text
  pub direction : MessageDirection
  pub template : Text
  pub args : List ArgType
  pub response_attr : ResponseAttribute
  pub fans : Bool
  pub atn_b1 : Bool

-- One row of the registry.
abbrev pub um : String → String → List ArgType → ResponseAttribute → Bool → Bool → MessageDefinition
um i t args attr fans atn = record {
  id = text i;
  direction = uplink;
  template = text t;
  args = args;
  response_attr = attr;
  fans = fans;
  atn_b1 = atn;
}

abbrev pub dm : String → String → List ArgType → ResponseAttribute → Bool → Bool → MessageDefinition
dm i t args attr fans atn = record (um i t args attr fans atn) { direction = downlink }

-- `find(c)`, with the text before and behind the byte found.
unfoldable pub split_at_byte : ℕ → Text → Option (Text × Text)
split_at_byte c [] = none
split_at_byte c (b ∷ s) =
    let later = split_at_byte c s in
    if b == c then some ([], s) else map_option (λ p. (b ∷ p.0, p.1)) later

-- The text behind the `]` of a placeholder that has begun, and all of it where there is none.
abbrev close_bracket : Text → Text → Text → Text → Text
close_bracket before inside value whole = elim (split_at_byte 93 inside) [
  | none ↦ whole
  | some p ↦ before ++ (value ++ p.1)
]

-- One round of `render`: the first `[…]` is replaced by the argument.
unfoldable pub fill_placeholder : Text → Text → Text
unfolding split_at_byte
fill_placeholder result value = elim (split_at_byte 91 result) [
  | none ↦ result
  | some p ↦ close_bracket p.0 p.1 value result
]

-- The loop of `render`.
abbrev render_from : Text → List CpdlcArgument → Text
render_from result [] = result
render_from result (arg ∷ args) = render_from (fill_placeholder result (display_argument arg)) args

-- `MessageDefinition::render`
unfoldable pub render_definition : MessageDefinition → List CpdlcArgument → Text
unfolding fill_placeholder display_argument
render_definition def args = render_from def.template args
