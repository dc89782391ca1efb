-- ===== src/Prelude/Split.antt =====
-- Rust's `str::splitn` and `str::trim` on texts; the separator is a byte.
use Prim.Native.Nat.{ℕ, zero, suc}
use mathlib.Core.Path.{◌≡◌, refl}
use mathlib.Core.Bool.{Bool, true, false, not, ◌&&◌, ◌||◌}
use mathlib.Core.List.{List, [], ◌∷◌, ◌++◌}
use mathlib.Core.Option.{Option, none, some}
use native.Mathlib.Omega.{arith}
use openlink.Prelude.Tests.{leb, ◌==◌, if◌then◌else◌}
use openlink.Prelude.Bytes.{Text}

-- `sep` does not occur in the text.
abbrev pub lacks : ℕ → Text → Bool
lacks sep [] = true
lacks sep (c ∷ s) = not (c == sep) && lacks sep s

-- The part in front of the first `sep`, and the part behind it.
unfoldable pub before : ℕ → Text → Text
before sep [] = []
before sep (c ∷ s) = if c == sep then [] else c ∷ before sep s

unfoldable pub after : ℕ → Text → Option Text
after sep [] = none
after sep (c ∷ s) = if c == sep then some s else after sep s

-- `s.splitn(n, sep)`
unfoldable pub splitn : ℕ → ℕ → Text → List Text
splitn zero sep s = []
splitn (suc zero) sep s = s ∷ []
splitn (suc (suc n)) sep s =
    let rest = splitn (suc n) sep in
    elim (after sep s) [ none ↦ s ∷ [] | some t ↦ before sep s ∷ rest t ]

pub before-append : (sep : ℕ) (p s : Text) → lacks sep p ≡ true → before sep (p ++ (sep ∷ s)) ≡ p
unfolding before
before-append sep [] s h = ground arith
before-append sep (c ∷ p) s h = ground (arith, before-append sep p s)

pub after-append : (sep : ℕ) (p s : Text) → lacks sep p ≡ true → after sep (p ++ (sep ∷ s)) ≡ some s
unfolding after
after-append sep [] s h = ground arith
after-append sep (c ∷ p) s h = ground (arith, after-append sep p s)

-- A part without the separator is split off.
pub splitn-append :
    (n sep : ℕ) (p s : Text)
    → lacks sep p ≡ true
    → splitn (suc (suc n)) sep (p ++ (sep ∷ s)) ≡ p ∷ splitn (suc n) sep s
unfolding splitn
splitn-append n sep p s h = rw (after-append sep p s h, splitn) (rw (before-append sep p s h) refl)

-- The white space of ASCII.
abbrev pub is_space : ℕ → Bool
is_space c = c == 32 || (leb 9 c && leb c 13)

abbrev pub is_empty : Text → Bool
is_empty [] = true
is_empty (c ∷ s) = false

unfoldable pub trim_start : Text → Text
trim_start [] = []
trim_start (c ∷ s) = if is_space c then trim_start s else c ∷ s

unfoldable pub trim_end : Text → Text
trim_end [] = []
trim_end (c ∷ s) = let rest = trim_end s in if is_space c && is_empty rest then [] else c ∷ rest

-- `str::trim`
abbrev pub trim : Text → Text
trim s = trim_end (trim_start s)

empty-append : (p s : Text) → is_empty s ≡ false → is_empty (p ++ s) ≡ false
empty-append [] s h = h
empty-append (c ∷ p) s h = refl

-- What stands in front of a text that is not all white space is kept.
pub trim_end-append :
    (p s : Text) → is_empty (trim_end s) ≡ false → trim_end (p ++ s) ≡ p ++ trim_end s
unfolding trim_end
trim_end-append [] s h = refl
trim_end-append (c ∷ p) s h =
    let rest = trim_end-append p s h in
    let full = empty-append p (trim_end s) h in rw rest (ground arith)

pub trim_end-cons : (c : ℕ) (s : Text) → is_space c ≡ false → trim_end (c ∷ s) ≡ c ∷ trim_end s
unfolding trim_end
trim_end-cons c s h = ground arith
