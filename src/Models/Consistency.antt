-- ===== src/Models/Consistency.antt =====
-- crates/openlink-models/src/cpdlc.rs: what holds of every row of the registry.
use mathlib.Core.Bool.{and-eq-true_iff}
use openlink.Prelude.{
  ℕ, suc, ◌≡◌, refl, inl, inr, Text, text, Bool, true, ◌&&◌, List, [], ◌∷◌, some, arith, length,
  all, ◌==◌, ==_iff, ◌=t◌, =t_iff, Bool-cases, is_some, strip_prefix, if◌then◌else◌,
}
use openlink.Models.Attribute.{MessageDirection, uplink, downlink}
use openlink.Models.Definition.{MessageDefinition}
use openlink.Models.Registry.{message_registry, find_in, find_definition}

-- The number of placeholders of a template.
abbrev pub placeholders : Text → ℕ
placeholders [] = 0
placeholders (c ∷ s) = let rest = placeholders s in if c == 91 then suc rest else rest

abbrev pub prefix_of : MessageDirection → Text
prefix_of uplink = text "UM"
prefix_of downlink = text "DM"

abbrev is_consistent : MessageDefinition → Bool
is_consistent d =
    placeholders d.template == length d.args && is_some (strip_prefix (prefix_of d.direction) d.id)

registry-consistent : all is_consistent message_registry ≡ true
unfolding message_registry strip_prefix
registry-consistent = refl

find_in-consistent :
    (ds : List MessageDefinition) (id : Text) (d : MessageDefinition)
    → all is_consistent ds ≡ true
    → find_in ds id ≡ some d
    → (is_consistent d ≡ true) × (d.id ≡ id)
unfolding find_in
find_in-consistent [] id d h e = cc
find_in-consistent (x ∷ ds) id d h e = elim (Bool-cases (x.id =t id)) [
  | inl p ↦
      let q : x ≡ d = ground arith in
      (rw (← q) ((and-eq-true_iff _ _).0 h).0, rw (← q) ((=t_iff x.id id).0 p))
  | inr p ↦ find_in-consistent ds id d (ground arith) (rw p at e)
]

-- The identifier that finds a definition is its own, it begins with UM or DM as its direction says,
-- and its template has a placeholder for each of its argument kinds.
pub find_definition-consistent :
    (id : Text) (d : MessageDefinition)
    → find_definition id ≡ some d
    → (d.id ≡ id)
      × (is_some (strip_prefix (prefix_of d.direction) id) ≡ true)
      × (placeholders d.template ≡ length d.args)
unfolding find_definition
find_definition-consistent id d e =
    let (c, same) = find_in-consistent message_registry id d registry-consistent e in
    let (slots, begins) = (and-eq-true_iff _ _).0 c in
    (same, rw (← same) begins, (==_iff _ _).0 slots)
