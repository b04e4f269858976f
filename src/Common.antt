-- ===== src/Common.antt =====
-- The names that the other modules share: the libraries', passed on, and those of the children.
mod Tests
mod Lists
mod Text
mod Family
mod Trimming
pub use Tests.*
pub use Lists.*
pub use Family.*
pub use Trimming.*
unfoldable pub use Text.{
  equal, has_prefix, has_suffix, contains_byte, hex, remove_byte, to_lower, to_upper, trim_left,
  trim_space, split_from, split,
}
pub use Text.{
  hex_digit, lower_byte, upper_byte, is_space, Bytes, codes, IsBytes, equal_iff, equal_refl,
  equal_comm, has_prefix_iff, has_suffix_iff,
}
pub use Prim.Native.Nat.{ℕ, zero, suc, ◌+◌, ◌-◌, ◌*◌, ◌/◌, ◌%◌, ◌^◌, ◌≤◌, ◌<◌, min, max}
pub use mathlib.Core.Path.{◌≡◌, refl, sym, ap, subst, ◌∙◌}
pub use mathlib.Core.Logic.{◌≢◌, ◌↔◌, ◌⊎◌, inl, inr}
pub use mathlib.Core.Bool.{Bool, true, false, not, ◌&&◌, ◌||◌}
pub use mathlib.Core.Option.{Option, none, some}
pub use mathlib.Core.List.{List, [], ◌∷◌, ◌++◌, map}
pub use mathlib.Core.List.{append-nil, append_assoc}
pub use native.Mathlib.Omega.{arith}
