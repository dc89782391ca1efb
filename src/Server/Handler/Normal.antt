-- ===== src/Server/Handler/Normal.antt =====
-- crates/openlink-server/src/acars.rs: the normalisation of an application message.
use openlink.Prelude.{
  ℕ, zero, suc, and_then, map_option, sym, to_uppercase, ◌≡◌, refl, ap, ap₂, Text, Option, none,
  some, List, [], ◌∷◌, map, Bool-cases, inl, inr, to_uppercase_idem,
}
use openlink.Models.Argument.{ArgType, CpdlcArgument, arg_type, is_free_text}
use openlink.Models.Definition.{MessageDefinition}
use openlink.Models.Registry.{find_definition}
use openlink.Models.Message.{MessageElement, CpdlcApplicationMessage}
use openlink.Server.Handler.{
  upper_argument, upper_arguments, normalize_by, normalize_element, normalize,
}

upper_argument_idem :
    (t : ArgType) (a : CpdlcArgument) → upper_argument t (upper_argument t a) ≡ upper_argument t a
upper_argument_idem t (CpdlcArgument.free_text s) = elim (Bool-cases (is_free_text t)) [
  | inl p ↦ rw p (rw to_uppercase_idem)
  | inr p ↦ rw p
]
upper_argument_idem t _ = refl

upper_arguments_idem :
    (ts : List ArgType) (args : List CpdlcArgument)
    → upper_arguments ts (upper_arguments ts args) ≡ upper_arguments ts args
upper_arguments_idem [] args = refl
upper_arguments_idem (t ∷ ts) [] = refl
upper_arguments_idem (t ∷ ts) (a ∷ args) =
    ap₂ ◌∷◌ (upper_argument_idem t a) (upper_arguments_idem ts args)

normalize_by_idem :
    (d : Option MessageDefinition) (e : MessageElement)
    → normalize_by d (normalize_by d e) ≡ normalize_by d e
normalize_by_idem none e = refl
normalize_by_idem (some def) e =
    ap (λ (args : List CpdlcArgument). record e { args = args })
      (upper_arguments_idem def.args e.args)

-- The element keeps its identifier, so the second round finds the same definition.
normalize_by-id : (d : Option MessageDefinition) (e : MessageElement) → (normalize_by d e).id ≡ e.id
normalize_by-id none e = refl
normalize_by-id (some def) e = refl

normalize_element_idem :
    (e : MessageElement) → normalize_element (normalize_element e) ≡ normalize_element e
unfolding normalize_element
normalize_element_idem e =
    rw (normalize_by-id (find_definition e.id) e) (normalize_by_idem (find_definition e.id) e)

map_idem :
    (es : List MessageElement)
    → map normalize_element (map normalize_element es) ≡ map normalize_element es
map_idem [] = refl
map_idem (e ∷ es) = ap₂ ◌∷◌ (normalize_element_idem e) (map_idem es)

-- A message that the server has normalised is not changed by another pass through a server.
pub normalize_idem : (msg : CpdlcApplicationMessage) → normalize (normalize msg) ≡ normalize msg
unfolding normalize
normalize_idem msg =
    ap (λ (es : List MessageElement). record msg { elements = es }) (map_idem msg.elements)

upper_argument-arg_type :
    (t : ArgType) (a : CpdlcArgument) → arg_type (upper_argument t a) ≡ arg_type a
unfolding arg_type
upper_argument-arg_type t (CpdlcArgument.free_text s) = refl
upper_argument-arg_type t _ = refl

upper_arguments-arg_type :
    (ts : List ArgType) (args : List CpdlcArgument)
    → map arg_type (upper_arguments ts args) ≡ map arg_type args
upper_arguments-arg_type [] args = refl
upper_arguments-arg_type (t ∷ ts) [] = refl
upper_arguments-arg_type (t ∷ ts) (a ∷ args) =
    ap₂ ◌∷◌ (upper_argument-arg_type t a) (upper_arguments-arg_type ts args)

-- The identifier of an element and the kinds of its arguments.
abbrev pub shape : MessageElement → Text × List ArgType
shape e = (e.id, map arg_type e.args)

normalize_by-shape :
    (d : Option MessageDefinition) (e : MessageElement) → shape (normalize_by d e) ≡ shape e
normalize_by-shape none e = refl
normalize_by-shape (some def) e =
    ap (λ (ts : List ArgType). (e.id, ts)) (upper_arguments-arg_type def.args e.args)

map-shape : (es : List MessageElement) → map shape (map normalize_element es) ≡ map shape es
unfolding normalize_element
map-shape [] = refl
map-shape (e ∷ es) = ap₂ ◌∷◌ (normalize_by-shape (find_definition e.id) e) (map-shape es)

-- The `k`th entry of a list.
abbrev pub entry_at : {A : Type 0} → ℕ → List A → Option A
entry_at k [] = none
entry_at zero (x ∷ xs) = some x
entry_at (suc k) (x ∷ xs) = entry_at k xs

-- Argument `i` of element `k`, and the kind that the registry asks for there.
abbrev pub argument_at : ℕ → ℕ → List MessageElement → Option CpdlcArgument
argument_at k i es = and_then (λ (e : MessageElement). entry_at i e.args) (entry_at k es)

abbrev kind_of : ℕ → MessageElement → Option ArgType
kind_of i e = and_then (λ (def : MessageDefinition). entry_at i def.args) (find_definition e.id)

abbrev pub kind_at : ℕ → ℕ → List MessageElement → Option ArgType
kind_at k i es = and_then (kind_of i) (entry_at k es)

-- A free text in upper case, where the registry asks for a free text.
abbrev pub raised : Option ArgType → CpdlcArgument → CpdlcArgument
raised (some ArgType.free_text) (CpdlcArgument.free_text s) =
    CpdlcArgument.free_text (to_uppercase s)
raised t a = a

raised-none : (a : CpdlcArgument) → raised none a ≡ a
raised-none (CpdlcArgument.free_text s) = refl
raised-none _ = refl

raised-some : (t : ArgType) (a : CpdlcArgument) → upper_argument t a ≡ raised (some t) a
raised-some ArgType.free_text (CpdlcArgument.free_text s) = refl
raised-some _ (CpdlcArgument.free_text s) = refl
raised-some _ _ = refl

same_option : (o : Option CpdlcArgument) → o ≡ map_option (raised none) o
same_option none = refl
same_option (some a) = ap some (sym (raised-none a))

upper_arguments-entry_at :
    (ts : List ArgType) (args : List CpdlcArgument) (i : ℕ)
    → entry_at i (upper_arguments ts args) ≡ map_option (raised (entry_at i ts)) (entry_at i args)
upper_arguments-entry_at [] args i = same_option (entry_at i args)
upper_arguments-entry_at (t ∷ ts) [] i = refl
upper_arguments-entry_at (t ∷ ts) (a ∷ args) zero = ap some (raised-some t a)
upper_arguments-entry_at (t ∷ ts) (a ∷ args) (suc i) = upper_arguments-entry_at ts args i

normalize_by-entry_at :
    (d : Option MessageDefinition) (e : MessageElement) (i : ℕ)
    → entry_at i (normalize_by d e).args
      ≡ map_option
          (raised (and_then (λ (def : MessageDefinition). entry_at i def.args) d))
          (entry_at i e.args)
normalize_by-entry_at none e i = same_option (entry_at i e.args)
normalize_by-entry_at (some def) e i = upper_arguments-entry_at def.args e.args i

map-argument_at :
    (es : List MessageElement) (k i : ℕ)
    → argument_at k i (map normalize_element es)
      ≡ map_option (raised (kind_at k i es)) (argument_at k i es)
unfolding normalize_element
map-argument_at [] k i = refl
map-argument_at (e ∷ es) zero i = normalize_by-entry_at (find_definition e.id) e i
map-argument_at (e ∷ es) (suc k) i = map-argument_at es k i

-- Normalising changes neither the number and order of the elements, nor their identifiers, nor the
-- number and kinds of their arguments, and an argument of an element is changed exactly where it is a
-- free text and the registry asks for a free text at its place: there it is put in upper case.
pub normalize-argument_at :
    (msg : CpdlcApplicationMessage) (k i : ℕ)
    → (map shape (normalize msg).elements ≡ map shape msg.elements)
      × (argument_at k i (normalize msg).elements
          ≡ map_option (raised (kind_at k i msg.elements)) (argument_at k i msg.elements))
unfolding normalize
normalize-argument_at msg k i = (map-shape msg.elements, map-argument_at msg.elements k i)
