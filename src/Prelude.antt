-- ===== src/Prelude.antt =====
-- What every module shares: names of the libraries passed on, Boolean tests, panicking code as
-- `Option`, vectors, hash maps and the laws of machine words.
mod Tests
mod Lists
mod Index
mod Maps
pub mod Sort
pub mod Bits
pub mod Order
pub use Tests.*
pub use Lists.*
pub use Index.*
pub use Maps.*
pub use Prim.Native.Nat.{
  ℕ, zero, suc, ◌+◌, ◌-◌, ◌*◌, ◌/◌, ◌%◌, ◌^◌, ◌≤◌, ◌<◌, min, max, bit_and, bit_or, compare,
  Ordering,
}
pub use mathlib.Core.Path.{◌≡◌, refl, sym, ap, ap₂, ◌∙◌, subst, subst₂, fun_ext}
pub use mathlib.Core.Logic.{◌≢◌, ◌↔◌, ◌⊎◌, inl, inr}
pub use mathlib.Core.Bool.{Bool, true, false, not, ◌&&◌, ◌||◌}
pub use mathlib.Core.Option.{Option, none, some}
pub use mathlib.Core.List.{List, [], ◌∷◌, ◌++◌, map}
pub use native.Mathlib.Omega.{arith}
