-- ===== src/Prelude.antt =====
-- The names that the other modules share: those of the libraries, passed on, and those of the
-- children (tests on numbers, lists by index, results of fallible code, byte strings, decimals).
mod Tests
mod Lists
mod Outcome
mod Text
mod Decimal
mod Numeral
mod Dictionary
mod Cut
pub use Tests.*
pub use Lists.*
pub use Outcome.*
pub use Text.*
unfoldable pub use Text.{
  str_eq, is_empty, has_prefix, has_suffix, trim_prefix, contains_str, after_last, split, split_go,
}
pub use Decimal.*
pub use Numeral.*
pub use Dictionary.*
unfoldable pub use Dictionary.{find_label, label, put_label, remove_label}
pub use Cut.*
unfoldable pub use Decimal.{itoa, print_digits, atoi, scan, parse_uint, digits, is_digit}
pub use Prim.Native.Nat.{ℕ, zero, suc, ◌+◌, ◌-◌, ◌*◌, ◌/◌, ◌%◌, ◌^◌, ◌≤◌, ◌<◌}
pub use mathlib.Core.Path.{◌≡◌, refl, sym, ap, ap₂, ◌∙◌, fun_ext, subst}
pub use mathlib.Core.Logic.{◌≢◌, ◌↔◌, ◌⊎◌, inl, inr}
pub use mathlib.Core.Bool.{Bool, true, false, not, ◌&&◌, ◌||◌}
pub use mathlib.Core.Option.{Option, none, some}
pub use mathlib.Core.List.{List, [], ◌∷◌, ◌++◌, append_assoc, append-nil}
unfoldable pub use mathlib.Core.List.{map}
pub use native.Mathlib.Omega.{arith}
