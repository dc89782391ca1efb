-- ===== src/Models/FlightLevel.antt =====
-- crates/openlink-models/src/cpdlc.rs: `FlightLevel`, a `u16` kept as a number, and `ICAOAirportCode`.
use openlink.Prelude.{
  ℕ, ◌≤◌, ◌≡◌, refl, Text, text, Bool, ◌&&◌, ◌++◌, Option, none, some, [], ◌∷◌, arith, ltb, leb,
  ◌==◌, all, length, unwrap_or, to_string, parse_unsigned, strip_prefix, if◌then◌else◌,
  strip_prefix-append, parse_unsigned-to_string, Bool-cases, inl, inr, is_digit, to_string-All, All,
}

abbrev pub u16_max : ℕ
u16_max = 65535

-- `impl Display for FlightLevel`
unfoldable pub display_level : ℕ → Text
display_level level = if ltb level 1000 then text "FL" ++ to_string level else to_string level

above_999 : Option ℕ → Option ℕ
above_999 none = none
above_999 (some level) = if ltb 999 level then none else some level

-- `impl FromStr for FlightLevel`; `none` is `ModelError::InvalidFlightLevel`.
unfoldable pub parse_level : Text → Option ℕ
unfolding above_999
parse_level s = above_999 (parse_unsigned u16_max (unwrap_or s (strip_prefix (text "FL") s)))

-- Digits do not begin with `FL`.
strip_prefix-digits :
    (s : Text) → All (λ c. is_digit c ≡ Bool.true) s → strip_prefix (text "FL") s ≡ none
unfolding strip_prefix
strip_prefix-digits [] h = refl
strip_prefix-digits (c ∷ s) h = ground arith

-- What is displayed parses back to the same level exactly below 1000; at 1000 and above, where the
-- display is an altitude in feet, parsing is an error.
pub parse_level-display_level :
    (level : ℕ)
    → level ≤ u16_max
    → parse_level (display_level level) ≡ (if ltb level 1000 then some level else none)
unfolding parse_level display_level
parse_level-display_level level h = elim (Bool-cases (ltb level 1000)) [
  | inl low ↦ rw low (
      rw (strip_prefix-append (text "FL") (to_string level))
        (rw (parse_unsigned-to_string u16_max level h) (ground arith)))
  | inr high ↦ rw high (
      rw (strip_prefix-digits (to_string level) (to_string-All level))
        (rw (parse_unsigned-to_string u16_max level h) (ground arith)))
]

-- A parsed level is at most 999.
pub parse_level-le : (s : Text) (level : ℕ) → parse_level s ≡ some level → level ≤ 999
unfolding parse_level
parse_level-le s level e = ground arith

abbrev is_ascii_uppercase : ℕ → Bool
is_ascii_uppercase b = leb 65 b && leb b 90

-- `ICAOAirportCode::try_from`: the check of `validate`, and the text itself.
unfoldable pub parse_icao_code : Text → Option Text
parse_icao_code s = if length s == 4 && all is_ascii_uppercase s then some s else none
