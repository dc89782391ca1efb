-- ===== src/Prelude/Decimal.antt =====
-- Rust's `to_string` and `str::parse` for unsigned integers.
use Prim.Native.Nat.{ℕ, zero, suc, ◌+◌, ◌-◌, ◌*◌, ◌/◌, ◌%◌, ◌≤◌, ◌<◌}
use mathlib.Core.Path.{◌≡◌, ◌∙◌}
use mathlib.Core.Logic.{inl, inr}
use mathlib.Core.Bool.{Bool, ◌&&◌}
use mathlib.Core.List.{[], ◌∷◌}
use mathlib.Core.Option.{Option, none, some}
use native.Mathlib.Omega.{arith}
use openlink.Prelude.Tests.{ltb, leb, ◌==◌, if◌then◌else◌, Bool-cases}
use openlink.Prelude.Lists.{All}
use openlink.Prelude.Bytes.{Text}

-- The digits of `n`, in front of `rest`; `suc n` rounds are enough.
digits_from : ℕ → ℕ → Text → Text
digits_from zero n rest = rest
digits_from (suc fuel) n rest =
    let more = digits_from fuel (n / 10) ((48 + n % 10) ∷ rest) in
    if ltb n 10 then (48 + n) ∷ rest else more

unfoldable pub to_string : ℕ → Text
unfolding digits_from
to_string n = digits_from (suc n) n []

abbrev pub is_digit : ℕ → Bool
is_digit c = leb 48 c && leb c 57

-- The accumulator never passes `max`: a digit that would overflow is an error.
unfoldable pub parse_digits : ℕ → ℕ → Text → Option ℕ
parse_digits max acc [] = some acc
parse_digits max acc (c ∷ s) =
    if is_digit c && leb (acc * 10 + (c - 48)) max
    then parse_digits max (acc * 10 + (c - 48)) s
    else none

abbrev parse_nonempty : ℕ → Text → Option ℕ
parse_nonempty max [] = none
parse_nonempty max (c ∷ s) = parse_digits max 0 (c ∷ s)

-- `s.parse::<uN>()`, with `max` the greatest value of the type; one leading `+` is accepted.
unfoldable pub parse_unsigned : ℕ → Text → Option ℕ
unfolding parse_digits
parse_unsigned max [] = none
parse_unsigned max (c ∷ s) = if c == 43 then parse_nonempty max s else parse_digits max 0 (c ∷ s)

parse_digits-digits_from :
    (max fuel n : ℕ) (rest : Text)
    → n < fuel
    → n ≤ max
    → parse_digits max 0 (digits_from fuel n rest) ≡ parse_digits max n rest
unfolding digits_from parse_digits
parse_digits-digits_from max zero n rest h m = elim h [ ]
parse_digits-digits_from max (suc fuel) n rest h m = elim (Bool-cases (ltb n 10)) [
  | inl small ↦ rw small (ground arith)
  | inr large ↦ rw large (
      parse_digits-digits_from max fuel (n / 10) ((48 + n % 10) ∷ rest) (ground arith)
        (ground arith)
      ∙ last)
]
  where
    last : parse_digits max (n / 10) ((48 + n % 10) ∷ rest) ≡ parse_digits max n rest
    last = ground arith

digits_from-first :
    (fuel n : ℕ) (rest : Text)
    → (c : ℕ) × (s : Text) × (digits_from (suc fuel) n rest ≡ c ∷ s) × (48 ≤ c)
unfolding digits_from
digits_from-first zero n rest = elim (Bool-cases (ltb n 10)) [
  | inl small ↦ (48 + n, rest, rw small, omega arith)
  | inr large ↦ (48 + n % 10, rest, rw large, omega arith)
]
digits_from-first (suc fuel) n rest = elim (Bool-cases (ltb n 10)) [
  | inl small ↦ (48 + n, rest, rw small, omega arith)
  | inr large ↦ rw large (digits_from-first fuel (n / 10) ((48 + n % 10) ∷ rest))
]

-- What is printed reads back, if it fits the type.
pub parse_unsigned-to_string : (max n : ℕ) → n ≤ max → parse_unsigned max (to_string n) ≡ some n
unfolding to_string parse_unsigned
parse_unsigned-to_string max n h =
    let (c, s, e, ge) = digits_from-first n n [] in
    let back : parse_digits max 0 (digits_from (suc n) n []) ≡ some n =
      parse_digits-digits_from max (suc n) n [] (omega arith) h in
    let back' : parse_digits max 0 (c ∷ s) ≡ some n = rw e at back in
    let not_plus : (c == 43) ≡ Bool.false = ground arith in rw e (rw not_plus back')

digits_from-All :
    (fuel n : ℕ) (rest : Text)
    → All (λ c. is_digit c ≡ Bool.true) rest
    → All (λ c. is_digit c ≡ Bool.true) (digits_from fuel n rest)
unfolding digits_from
digits_from-All zero n rest h = h
digits_from-All (suc fuel) n rest h = elim (Bool-cases (ltb n 10)) [
  | inl small ↦ rw small (ground arith, h)
  | inr large ↦ rw large (digits_from-All fuel (n / 10) ((48 + n % 10) ∷ rest) (ground arith, h))
]

-- Only digits are printed.
pub to_string-All : (n : ℕ) → All (λ c. is_digit c ≡ Bool.true) (to_string n)
unfolding to_string
to_string-All n = digits_from-All (suc n) n [] tt
