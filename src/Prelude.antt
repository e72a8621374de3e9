-- ===== src/Prelude.antt =====
-- The names that the other modules share: the libraries', passed on, and those of the children.
mod Tests
mod Lists
mod Tables
mod Bits
mod Words
mod Memory
pub use Tests.*
pub use Lists.*
pub use Tables.*
pub use Memory.*
unfoldable pub use Bits.{all_below}
pub use Words.{
  bit_or_ones, or_above, and_above, bit_or_split, bit_xor_split, bit_and_split, bit_and-zero,
  bit_or-zero, zero-bit_or, bit_and_ones, keep_above, or_low, or_high, keep_below, field_mask,
  with_field, set_field, set_field_left,
}
pub use Bits.{all_below_sound, eq-all_below, bit_and-low, bit_and-high, bit_or-disjoint}
pub use Prim.Native.Nat.{ℕ, zero, suc, ◌+◌, ◌-◌, ◌*◌, ◌/◌, ◌%◌, ◌^◌, ◌≤◌, ◌<◌, min}
pub use mathlib.Core.Path.{◌≡◌, refl, sym, ap, ap₂, ◌∙◌}
pub use mathlib.Core.Logic.{◌≢◌, ◌↔◌, ◌⊎◌, inl, inr}
pub use mathlib.Core.Bool.{Bool, true, false, not, ◌&&◌, ◌||◌}
pub use mathlib.Core.Option.{Option, none, some}
pub use mathlib.Core.List.{List, [], ◌∷◌, ◌++◌, map, append-nil, append_assoc}
pub use native.Mathlib.Omega.{arith}
