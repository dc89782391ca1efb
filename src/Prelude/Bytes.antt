-- ===== src/Prelude/Bytes.antt =====
-- Rust's `String` and `&str`: a list of bytes. Case mapping and trimming are those of ASCII texts.
use Prim.Native.Nat.{ℕ, ◌+◌, ◌-◌}
use Prim.Native.Char.{code}
use Prim.Native.String.{String}
use mathlib.Core.Path.{◌≡◌, refl, ap₂}
use mathlib.Core.Logic.{◌↔◌, ◌≢◌}
use mathlib.Core.Bool.{Bool, true, false, ◌&&◌, ◌||◌}
use mathlib.Core.List.{List, [], ◌∷◌, ◌++◌}
use mathlib.Core.Option.{Option, none, some}
use native.Mathlib.Omega.{arith}
use openlink.Prelude.Tests.{leb, ◌==◌, if◌then◌else◌}

abbrev pub Text : Type 0
Text = List ℕ

-- The bytes of a literal.
abbrev pub text : String → Text
text String.[] = []
text (String.◌∷◌ c s) = code c ∷ text s

-- `==` on texts.
infix 50 ◌=t◌
unfoldable pub ◌=t◌ : Text → Text → Bool
[] =t [] = true
[] =t (b ∷ t) = false
(a ∷ s) =t [] = false
(a ∷ s) =t (b ∷ t) = a == b && s =t t

pub =t_iff : (s t : Text) → ((s =t t) ≡ true) ↔ (s ≡ t)
unfolding ◌=t◌
=t_iff [] [] = ground arith
=t_iff [] (b ∷ t) = ground arith
=t_iff (a ∷ s) [] = ground arith
=t_iff (a ∷ s) (b ∷ t) = ground (arith, =t_iff s t)

pub =t_refl : (s : Text) → (s =t s) ≡ true
=t_refl s = (=t_iff s s).1 refl

pub =t_ne : (s t : Text) → s ≢ t → (s =t t) ≡ false
=t_ne s t h = ground (arith, =t_iff s t)

-- `matches!(s, a | b | …)` on text literals.
abbrev pub one_of : Text → List Text → Bool
one_of s [] = false
one_of s (t ∷ ts) = s =t t || one_of s ts

abbrev pub upper_byte : ℕ → ℕ
upper_byte c = if leb 97 c && leb c 122 then c - 32 else c

-- `str::to_uppercase`
unfoldable pub to_uppercase : Text → Text
to_uppercase [] = []
to_uppercase (c ∷ s) = upper_byte c ∷ to_uppercase s

abbrev pub lower_byte : ℕ → ℕ
lower_byte c = if leb 65 c && leb c 90 then c + 32 else c

-- `str::to_lowercase`
unfoldable pub to_lowercase : Text → Text
to_lowercase [] = []
to_lowercase (c ∷ s) = lower_byte c ∷ to_lowercase s

upper_byte_idem : (c : ℕ) → upper_byte (upper_byte c) ≡ upper_byte c
upper_byte_idem c = ground arith

pub to_uppercase_idem : (s : Text) → to_uppercase (to_uppercase s) ≡ to_uppercase s
unfolding to_uppercase
to_uppercase_idem [] = refl
to_uppercase_idem (c ∷ s) = ap₂ ◌∷◌ (upper_byte_idem c) (to_uppercase_idem s)

-- `str::strip_prefix`
unfoldable pub strip_prefix : Text → Text → Option Text
strip_prefix [] s = some s
strip_prefix (a ∷ p) [] = none
strip_prefix (a ∷ p) (b ∷ s) = if a == b then strip_prefix p s else none

pub strip_prefix-append : (p s : Text) → strip_prefix p (p ++ s) ≡ some s
unfolding strip_prefix
strip_prefix-append [] s = refl
strip_prefix-append (a ∷ p) s = ground (arith, strip_prefix-append p s)
