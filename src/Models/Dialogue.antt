-- ===== src/Models/Dialogue.antt =====
-- crates/openlink-models/src/cpdlc.rs: which replies close a dialogue.
use openlink.Prelude.{
  ◌≡◌, refl, inl, inr, Text, Bool, true, false, not, ◌&&◌, List, [], ◌∷◌, arith, length, any, all,
  ◌++◌, ◌==◌, ◌=t◌, =t_iff, one_of, Bool-cases,
}
use openlink.Models.Message.{
  MessageElement, CpdlcApplicationMessage, has_closing_id, has_standby_id, is_closing_response,
  single, closes_dialogue_response_elements, closing_ids, standby_ids,
}

abbrev outside : List Text → List Text → Bool
outside ts us = all (λ t. not (one_of t us)) ts

one_of-outside :
    (s : Text) (ts us : List Text) → outside ts us ≡ true → one_of s ts ≡ true → one_of s us ≡ false
one_of-outside s [] us h p = cc
one_of-outside s (t ∷ ts) us h p = elim (Bool-cases (s =t t)) [
  | inl q ↦ rw ((=t_iff s t).0 q) (ground arith)
  | inr q ↦ one_of-outside s ts us (ground arith) (rw q at p)
]

standby_outside : outside standby_ids closing_ids ≡ true
unfolding ◌=t◌
standby_outside = refl

-- No identifier is both a closing reply and a standby.
standby_not_closing : (e : MessageElement) → has_standby_id e ≡ true → has_closing_id e ≡ false
unfolding has_standby_id has_closing_id
standby_not_closing e h = one_of-outside e.id standby_ids closing_ids standby_outside h

single-eq :
    (es : List MessageElement)
    → single has_closing_id es ≡ (length es == 1 && closes_dialogue_response_elements es)
unfolding closes_dialogue_response_elements
single-eq [] = refl
single-eq (e ∷ []) = elim (Bool-cases (has_standby_id e)) [
  | inl p ↦ rw (p, standby_not_closing e p)
  | inr p ↦ rw p (ground arith)
]
single-eq (e ∷ f ∷ es) = ground arith

-- The two tests agree: a message is a closing response exactly if it has one element and composing
-- that element closes the dialogue.
pub is_closing_response-eq :
    (msg : CpdlcApplicationMessage)
    → is_closing_response msg
      ≡ (length msg.elements == 1 && closes_dialogue_response_elements msg.elements)
unfolding is_closing_response
is_closing_response-eq msg = single-eq msg.elements

any-append-cons :
    (p : MessageElement → Bool) (xs ys : List MessageElement) (e : MessageElement)
    → p e ≡ true
    → any p (xs ++ (e ∷ ys)) ≡ true
any-append-cons p [] ys e h = ground arith
any-append-cons p (x ∷ xs) ys e h = ground (arith, any-append-cons p xs ys e h)

-- A reply with a STANDBY element, wherever it stands, does not close the dialogue, whatever else the
-- reply holds.
pub closes_dialogue-standby :
    (xs ys : List MessageElement) (e : MessageElement)
    → has_standby_id e ≡ true
    → closes_dialogue_response_elements (xs ++ (e ∷ ys)) ≡ false
unfolding closes_dialogue_response_elements
closes_dialogue-standby xs ys e h = ground (arith, any-append-cons has_standby_id xs ys e h)
