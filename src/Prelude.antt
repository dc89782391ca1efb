-- ===== src/Prelude.antt =====
-- The names that the other modules share: the libraries', passed on, and those of the children.
mod Tests
mod Lists
mod Bytes
mod Split
mod Outcome
mod Decimal
pub use Tests.*
pub use Lists.*
pub use Bytes.{
  Text, text, one_of, =t_iff, =t_refl, =t_ne, upper_byte, to_uppercase_idem, strip_prefix-append,
}
unfoldable pub use Bytes.{◌=t◌, to_uppercase, to_lowercase, strip_prefix}
pub use Split.{
  lacks, before-append, after-append, splitn-append, is_space, is_empty, trim, trim_end-append,
  trim_end-cons,
}
unfoldable pub use Split.{before, after, splitn, trim_start, trim_end}
pub use Decimal.{is_digit, parse_unsigned-to_string, to_string-All}
unfoldable pub use Decimal.{to_string, parse_digits, parse_unsigned}
pub use Outcome.*
pub use Prim.Native.Nat.{ℕ, zero, suc, ◌+◌, ◌-◌, ◌*◌, ◌/◌, ◌%◌, ◌^◌, ◌≤◌, ◌<◌}
pub use Prim.Native.String.{String}
pub use mathlib.Core.Path.{◌≡◌, refl, sym, ap, ap₂, ◌∙◌, fun_ext}
pub use mathlib.Core.Logic.{◌≢◌, ◌↔◌, ◌⊎◌, inl, inr}
pub use mathlib.Core.Bool.{Bool, true, false, not, ◌&&◌, ◌||◌}
pub use mathlib.Core.Option.{Option, none, some}
pub use mathlib.Core.List.{List, [], ◌∷◌, ◌++◌, map}
pub use native.Mathlib.Omega.{arith}
