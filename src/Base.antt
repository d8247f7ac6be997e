-- ===== src/Base.antt =====
-- The names that the other modules share: the libraries', passed on, and those of the children.
mod Tests
mod Bits
mod Words
mod Masks
mod Runs
pub use Tests.*
pub use Bits.*
pub use Masks.*
pub use Runs.*
pub use Words.{
  u8, u16, u32, sub32, bit_and-lt, bit_or-lt, shl32-lt, test_bit_of_lt, test_bit-shl32,
  test_bit-not32,
}
unfoldable pub use Words.{shl32, not32}
pub use Prim.Native.Nat.{
  max, min, ℕ, zero, suc, ◌+◌, ◌-◌, ◌*◌, ◌/◌, ◌%◌, ◌^◌, ◌≤◌, ◌<◌, bit_and, bit_or,
}
pub use mathlib.Core.Path.{◌≡◌, refl, sym, ap, subst, ◌∙◌}
pub use mathlib.Core.Logic.{◌≢◌, ◌↔◌, ◌⊎◌, inl, inr}
pub use mathlib.Core.Bool.{Bool, true, false, not, ◌&&◌, ◌||◌}
pub use mathlib.Core.Option.{Option, none, some}
pub use mathlib.Core.List.{List, [], ◌∷◌, ◌++◌, append_assoc, append-nil}
pub use native.Mathlib.Nat.{one-le-pow, pow-suc, le_refl, le_trans}
pub use native.Mathlib.Omega.{arith}
unfoldable pub use native.Mathlib.Decide.{dec_lt, ℕ_discrete}
