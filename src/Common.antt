-- ===== src/Common.antt =====
-- The names that the other modules share: the libraries' names, tests on numbers, lists indexed by
-- native numbers, bit masks, little-endian fields, and the return codes of the driver.
mod Tests
mod Lists
mod Bits
mod Bytes
mod Ints
mod Codes
pub use Tests.*
pub use Lists.*
pub use Bits.*
pub use Bytes.*
pub use Ints.*
pub use Codes.*
pub use Prim.Native.Nat.{
  ℕ, zero, suc, ◌+◌, ◌-◌, ◌*◌, ◌/◌, ◌%◌, ◌^◌, ◌≤◌, ◌<◌, min, max, bit_and, bit_or,
}
pub use mathlib.Core.Path.{◌≡◌, refl, sym, ap, ◌∙◌}
pub use mathlib.Core.Logic.{◌≢◌, ◌↔◌, ◌⊎◌, inl, inr}
pub use mathlib.Core.Bool.{Bool, true, false, not, ◌&&◌, ◌||◌}
pub use mathlib.Core.Option.{Option, none, some}
pub use mathlib.Core.List.{List, [], ◌∷◌, ◌++◌, append_assoc, append-nil}
pub use native.Mathlib.Omega.{arith}
