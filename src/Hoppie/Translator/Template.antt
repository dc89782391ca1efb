-- ===== src/Hoppie/Translator/Template.antt =====
-- crates/openlink-hoppie/src/translator.rs: which bodies match a template.
use openlink.Prelude.{
  ◌≡◌, refl, inl, inr, Text, true, false, Option, none, some, List, [], ◌∷◌, length, any, ◌==◌,
  arith, is_empty, trim, trim_start, trim_end, strip_prefix, Option-cases, Bool-cases,
}
use openlink.Models.Argument.{ArgType}
use openlink.Models.Definition.{MessageDefinition}
use openlink.Hoppie.Translator.{
  split_template, find_text, value_before, values_between, extract_values_between_segments,
  of_values, match_args, try_match_template,
}

-- An empty text is found at once.
find_text-empty : (needle s : Text) → needle ≡ [] → find_text needle s ≡ some ([], s)
unfolding find_text strip_prefix
find_text-empty [] [] h = refl
find_text-empty [] (c ∷ s) h = refl
find_text-empty (a ∷ needle) s h = cc

trim_empty : trim [] ≡ []
unfolding trim_start trim_end
trim_empty = refl

value_before-empty :
    (more : Text → List Text) (remaining rest : Text) (o : Option (Text × Text))
    → o ≡ some ([], rest)
    → any is_empty (value_before more remaining o) ≡ true
value_before-empty more remaining rest none h = cc
value_before-empty more remaining rest (some p) h = let q : p.0 ≡ [] = cc in rw (q, trim_empty) refl

-- Between two placeholders that only white space separates, the first value is empty.
values_between-blank :
    (mid : Text) (segs : List Text) (remaining : Text)
    → is_empty mid ≡ false
    → trim mid ≡ []
    → any is_empty (values_between (mid ∷ segs) remaining) ≡ true
unfolding values_between
values_between-blank mid segs remaining h t = rw h (
    value_before-empty (values_between segs) remaining remaining _
      (find_text-empty (trim mid) remaining t))

of_values-empty :
    (t : ArgType) (ts : List ArgType) (values : List Text)
    → any is_empty values ≡ true
    → of_values (t ∷ ts) values ≡ none
unfolding of_values
of_values-empty t ts values h = elim (Bool-cases (length values == length (t ∷ ts))) [
  | inl p ↦ rw (p, h) refl
  | inr p ↦ rw p refl
]

of_values-none : (t : ArgType) (ts : List ArgType) → of_values (t ∷ ts) [] ≡ none
unfolding of_values
of_values-none t ts = ground arith

extract_values-blank :
    (t : ArgType) (ts : List ArgType) (body first mid : Text) (segs : List Text)
    → is_empty mid ≡ false
    → trim mid ≡ []
    → of_values (t ∷ ts) (extract_values_between_segments body (first ∷ mid ∷ segs)) ≡ none
unfolding extract_values_between_segments
extract_values-blank t ts body first mid segs h e = elim (Bool-cases (is_empty first)) [
  | inl p ↦ rw p (of_values-empty t ts _ (values_between-blank mid segs body h e))
  | inr p ↦ elim (Option-cases (strip_prefix (trim_end first) body)) [
    | inl q ↦ rw (p, q) (of_values-none t ts)
    | inr (rest, q) ↦
        rw (p, q) (of_values-empty t ts _ (values_between-blank mid segs (trim_start rest) h e))
  ]
]

-- No body at all matches a template whose first two placeholders are separated by white space alone,
-- as in "CONTACT [unit name] [frequency]".
pub try_match_template-adjacent :
    (body : Text) (def : MessageDefinition) (t : ArgType) (ts : List ArgType) (first mid : Text)
    (segs : List Text)
    → def.args ≡ t ∷ ts
    → split_template def.template ≡ first ∷ mid ∷ segs
    → is_empty mid ≡ false
    → trim mid ≡ []
    → try_match_template body def ≡ none
unfolding try_match_template
try_match_template-adjacent body def t ts first mid segs a s h e =
    rw (a, match_args) (rw s (extract_values-blank t ts body first mid segs h e))
