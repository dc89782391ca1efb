-- ===== src/Gui/Command/Kinds.antt =====
-- crates/openlink-gui/src/components/atc_view.rs: the elements of the composer have the arguments that
-- the registry asks for.
use openlink.Prelude.{
  ℕ, suc, ◌≡◌, refl, ap₂, inl, inr, Text, text, true, Option, none, some, List, [], ◌∷◌, map,
  and_then, map_option, OnSome, Option-cases, Bool-cases, one_of, trim, ◌=t◌, parse_unsigned,
  if◌then◌else◌,
}
use openlink.Models.Argument.{ArgType, CpdlcArgument, arg_type}
use openlink.Models.Definition.{MessageDefinition}
use openlink.Models.Registry.{message_registry, find_in, find_definition}
use openlink.Models.FlightLevel.{u16_max}
use openlink.Models.Message.{MessageElement}
use openlink.Gui.Command.{
  nonempty, arg_value, turns, command_uplink_id, parse_level, parse_value, parse_argument,
  parse_arguments, turn_arguments, element_for, build_command_element,
}

pub OnSome-map :
    {A B : Type 0} (P : B → Type 0) (f : A → B) (o : Option A)
    → ((a : A) → P (f a))
    → OnSome P (map_option f o)
OnSome-map P f none each = tt
OnSome-map P f (some a) each = each a

pub OnSome-then :
    {A B : Type 0} (P : B → Type 0) (f : A → Option B) (o : Option A)
    → ((a : A) → OnSome P (f a))
    → OnSome P (and_then f o)
OnSome-then P f none each = tt
OnSome-then P f (some a) each = each a

abbrev pub Has : ArgType → CpdlcArgument → Type 0
Has t a = arg_type a ≡ t

parse_value-Has : (t : ArgType) (v : Text) → OnSome (Has t) (parse_value t v)
unfolding parse_value arg_type
parse_value-Has ArgType.level v =
    OnSome-map (Has ArgType.level) CpdlcArgument.level (parse_level v) (λ a. refl)
parse_value-Has ArgType.degrees v =
    OnSome-map (Has ArgType.degrees) CpdlcArgument.degrees (parse_unsigned u16_max v) (λ a. refl)
parse_value-Has _ v = refl

parse_argument-Has : (t : ArgType) (raw : Text) → OnSome (Has t) (parse_argument t raw)
unfolding parse_argument
parse_argument-Has t raw =
    OnSome-then (Has t) (parse_value t) (nonempty (trim raw)) (parse_value-Has t)

abbrev HaveAll : List ArgType → List CpdlcArgument → Type 0
HaveAll ts as_ = map arg_type as_ ≡ ts

parse_arguments-HaveAll :
    (ts : List ArgType) (idx : ℕ) (args : List Text)
    → OnSome (HaveAll ts) (parse_arguments ts idx args)
unfolding parse_arguments
parse_arguments-HaveAll [] idx args = refl
parse_arguments-HaveAll (t ∷ ts) idx args =
    first (and_then (parse_argument t) (arg_value args idx)) (parse_arguments ts (suc idx) args)
      (OnSome-then (Has t) (parse_argument t) (arg_value args idx) (parse_argument-Has t))
      (parse_arguments-HaveAll ts (suc idx) args)
  where
    first :
        (o : Option CpdlcArgument) (rest : Option (List CpdlcArgument))
        → OnSome (Has t) o
        → OnSome (HaveAll ts) rest
        → OnSome (HaveAll (t ∷ ts)) (and_then (λ a. map_option (λ more. a ∷ more) rest) o)
    first none rest h r = tt
    first (some a) none h r = tt
    first (some a) (some more) h r = ap₂ ◌∷◌ h r

-- The registry knows the element, and its arguments are of the kinds that its definition has.
abbrev pub IsTyped : MessageElement → Type 0
IsTyped e =
    (def : MessageDefinition) × (find_definition e.id ≡ some def) × (map arg_type e.args ≡ def.args)

turn_kinds : List ArgType
turn_kinds = ArgType.direction ∷ ArgType.degrees ∷ []

args_of : Text → Option (List ArgType)
args_of id = map_option (λ (d : MessageDefinition). d.args) (find_definition id)

um94-args : args_of (text "UM94") ≡ some turn_kinds
unfolding args_of turn_kinds find_definition find_in message_registry ◌=t◌
um94-args = refl

turn_arguments-HaveAll :
    (command : Text) (args : List Text) → OnSome (HaveAll turn_kinds) (turn_arguments command args)
unfolding arg_type turn_kinds
turn_arguments-HaveAll command args =
    OnSome-map (HaveAll turn_kinds) _ (and_then (parse_unsigned u16_max) (arg_value args 0))
      (λ heading. refl)

-- What `command_uplink_id` finds for a turn.
turn-args :
    (command id : Text) (def : MessageDefinition)
    → one_of command turns ≡ true
    → command_uplink_id command ≡ some id
    → find_definition id ≡ some def
    → turn_kinds ≡ def.args
unfolding command_uplink_id args_of
turn-args command id def t c d =
    let c' : some (text "UM94") ≡ some id = rw t at c in
    let e : text "UM94" ≡ id = cc in
    let k : args_of id ≡ some turn_kinds = rw (← e) um94-args in
    let k' : some def.args ≡ some turn_kinds = rw d at k in cc

arguments-HaveAll :
    (command : Text) (args : List Text) (id : Text) (def : MessageDefinition)
    → command_uplink_id command ≡ some id
    → find_definition id ≡ some def
    → OnSome (HaveAll def.args) (
        if one_of command turns
        then turn_arguments command args
        else parse_arguments def.args 0 args)
arguments-HaveAll command args id def c d = elim (Bool-cases (one_of command turns)) [
  | inl t ↦ rw (t, ← turn-args command id def t c d) (turn_arguments-HaveAll command args)
  | inr t ↦ rw t (parse_arguments-HaveAll def.args 0 args)
]

element-IsTyped :
    (id : Text) (def : MessageDefinition) (o : Option (List CpdlcArgument))
    → find_definition id ≡ some def
    → OnSome (HaveAll def.args) o
    → OnSome IsTyped
        (map_option (λ (parsed : List CpdlcArgument). record { id = id; args = parsed }) o)
element-IsTyped id def none d h = tt
element-IsTyped id def (some parsed) d h = (def, d, h)

build-IsTyped :
    (command : Text) (args : List Text) → OnSome IsTyped (build_command_element command args)
unfolding build_command_element element_for
build-IsTyped command args = elim (Option-cases (command_uplink_id command)) [
  | inl c ↦ rw c tt
  | inr (id, c) ↦ elim (Option-cases (find_definition id)) [
    | inl d ↦ rw (c, d) tt
    | inr (def, d) ↦
        rw (c, d) (element-IsTyped id def _ d (arguments-HaveAll command args id def c d))
  ]
]

-- Whatever the command and the texts that the controller enters: if the composer builds an element,
-- the registry knows its identifier, and its arguments are, one by one, of the kinds that the
-- definition in the registry asks for.
pub build_command_element-IsTyped :
    (command : Text) (args : List Text) (e : MessageElement)
    → build_command_element command args ≡ some e
    → IsTyped e
build_command_element-IsTyped command args e h = let r = build-IsTyped command args in rw h at r
