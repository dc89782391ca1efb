-- ===== src/Gui/Command/Labels/Built.antt =====
-- crates/openlink-gui/src/components/atc_view.rs: the parameters that the composer asks for are those
-- without which it cannot build an element.
use openlink.Prelude.{
  ℕ, zero, suc, ◌≡◌, refl, inl, inr, Text, text, true, false, not, Option, none, some, List, [],
  ◌∷◌, map_option, Option-cases, Bool-cases, one_of, is_some, strip_prefix, ◌∙◌, if◌then◌else◌,
}
use openlink.Models.Argument.{ArgType}
use openlink.Models.Definition.{MessageDefinition}
use openlink.Models.Registry.{find_definition}
use openlink.Models.Consistency.{find_definition-consistent}
use openlink.Gui.Command.{
  arg_value, turns, command_uplink_id, registered_id, parse_arguments, element_for,
  build_command_element,
}
use openlink.Gui.Command.Labels.{arg_specs, has_specs, command_param_specs, command_needs_param}

arg_value-none : (idx : ℕ) → arg_value [] idx ≡ none
unfolding arg_value
arg_value-none zero = refl
arg_value-none (suc n) = refl

parse_arguments-none :
    (ts : List ArgType) → is_some (parse_arguments ts 0 []) ≡ not (has_specs (arg_specs ts))
unfolding parse_arguments
parse_arguments-none [] = refl
parse_arguments-none (t ∷ ts) = rw (arg_value-none 0) refl

is_some-map : {A B : Type 0} (f : A → B) (o : Option A) → is_some (map_option f o) ≡ is_some o
is_some-map f none = refl
is_some-map f (some a) = refl

-- The definition that a command of the registry refers to.
registered :
    (command id : Text) → registered_id command ≡ some id → is_some (find_definition id) ≡ true
registered command id c = elim (Option-cases (find_definition command)) [
  | inl d ↦ let e : map_option (λ (x : MessageDefinition). x.id) none ≡ some id = rw d at c in cc
  | inr (def, d) ↦
      let e : map_option (λ (x : MessageDefinition). x.id) (some def) ≡ some id = rw d at c in
      let own : def.id ≡ command = (find_definition-consistent command def d).0 in
      let same : id ≡ command = cc in rw (same, d) refl
]

uplink-registered :
    (command id : Text)
    → one_of command turns ≡ false
    → command_uplink_id command ≡ some id
    → is_some (find_definition id) ≡ true
unfolding command_uplink_id
uplink-registered command id t c =
    let c' : (if is_some (strip_prefix (text "UM") command) then registered_id command else none)
        ≡ some id =
      rw t at c in
    elim (Bool-cases (is_some (strip_prefix (text "UM") command))) [
      | inl u ↦ registered command id (rw u at c')
      | inr u ↦ let e : none ≡ some id = rw u at c' in cc
    ]

-- A command that the composer knows is built without any parameter exactly where the composer asks for
-- none.
pub build_command_element-needs_param :
    (command id : Text)
    → command_uplink_id command ≡ some id
    → is_some (build_command_element command []) ≡ not (command_needs_param command)
unfolding build_command_element element_for command_needs_param command_param_specs
build_command_element-needs_param command id c = elim (Bool-cases (one_of command turns)) [
  | inl t ↦ elim (Option-cases (find_definition id)) [
    | inl d ↦ rw (c, d, t) refl
    | inr (def, d) ↦ rw (c, d, t, arg_value-none 0) refl
  ]
  | inr t ↦ elim (Option-cases (find_definition id)) [
    | inl d ↦
        let known = uplink-registered command id t c in
        let r : is_some {A = MessageDefinition} none ≡ true = rw d at known in cc
    | inr (def, d) ↦
        rw (c, d, t) (is_some-map _ (parse_arguments def.args 0 []) ∙ parse_arguments-none def.args)
  ]
]
