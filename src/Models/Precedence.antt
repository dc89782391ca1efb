-- ===== src/Models/Precedence.antt =====
-- crates/openlink-models/src/cpdlc.rs: the effective response attribute against the precedence that
-- the documentation of `ResponseAttribute` gives, `WU > AN > R > Y > N`.
use openlink.Prelude.{
  ◌≡◌, refl, ap, ◌∙◌, Bool, true, false, List, [], ◌∷◌, any, if◌then◌else◌, arith,
}
use openlink.Models.Attribute.{
  ResponseAttribute, n, y, r, an, wu, ne, max_attribute, as_precedence, max_from, effective,
}

-- `==` on attributes.
abbrev same_attribute : ResponseAttribute → ResponseAttribute → Bool
same_attribute n n = true
same_attribute y y = true
same_attribute r r = true
same_attribute an an = true
same_attribute wu wu = true
same_attribute ne ne = true
same_attribute _ _ = false

abbrev occurs : ResponseAttribute → List ResponseAttribute → Bool
occurs a attrs = any (same_attribute a) attrs

-- The documented precedence: the first of WU, AN, R and Y that an element has, or else N, which is
-- also what NE counts as.
abbrev pub by_precedence : List ResponseAttribute → ResponseAttribute
by_precedence attrs =
    if occurs wu attrs
    then wu
    else if occurs an attrs
    then an
    else if occurs r attrs
    then r
    else if occurs y attrs
    then y
    else n

better : ResponseAttribute → ResponseAttribute → ResponseAttribute
better a b = max_attribute (as_precedence a) (as_precedence b)

better-precedence : (a b : ResponseAttribute) → better a b ≡ as_precedence (better a b)
unfolding better max_attribute
better-precedence a b = ground arith

-- Of the first two attributes, the better one counts.
two_first :
    (a b : ResponseAttribute) (attrs : List ResponseAttribute)
    → by_precedence (better a b ∷ attrs) ≡ by_precedence (a ∷ b ∷ attrs)
unfolding better max_attribute
two_first a b attrs = ground arith

max_from-precedence :
    (best : ResponseAttribute) (attrs : List ResponseAttribute)
    → max_from (as_precedence best) attrs ≡ by_precedence (best ∷ attrs)
unfolding max_from better
max_from-precedence best [] = alone best
  where
    alone : (a : ResponseAttribute) → as_precedence a ≡ by_precedence (a ∷ [])
    alone a = ground arith
max_from-precedence best (a ∷ attrs) =
    let next = better best a in
    let kept : max_from next attrs ≡ max_from (as_precedence next) attrs =
      ap (λ b. max_from b attrs) (better-precedence best a) in
    kept ∙ max_from-precedence next attrs ∙ two_first best a attrs

-- Whatever attributes the elements of a message have, in whatever order and number: the effective one
-- is WU if it occurs, or else AN, or else R, or else Y, and N where none of these occurs, so that NE
-- counts as N and a message without attributes has N.
pub effective-precedence : (attrs : List ResponseAttribute) → effective attrs ≡ by_precedence attrs
unfolding effective
effective-precedence [] = refl
effective-precedence (a ∷ attrs) = max_from-precedence a attrs
