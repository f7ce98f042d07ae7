-- ===== src/Prelude.antt =====
-- Names shared by every module: the libraries', passed on, and those of the children.
-- A kernel table or a stretch of memory is a function from indices to entries (`Arrays`), a
-- machine word is a number with its wrap-around written out (`Words`).
mod Tests
mod Arrays
pub mod Words
pub mod Bits
pub mod Masks
pub mod Chains
pub mod Members
pub mod Ring
pub mod Slice
unfoldable pub use Tests.*
unfoldable pub use Arrays.*
pub use Prim.Native.Nat.{ℕ, zero, suc, ◌+◌, ◌-◌, ◌*◌, ◌/◌, ◌%◌, ◌^◌, ◌≤◌, ◌<◌, bit_and, bit_or, min}
pub use mathlib.Core.Path.{◌≡◌, refl, sym, ap, ap₂, ◌∙◌, subst, fun_ext}
pub use mathlib.Core.Logic.{◌≢◌, ◌↔◌, ◌⊎◌, inl, inr}
pub use mathlib.Core.Bool.{Bool, true, false, not, ◌&&◌, ◌||◌}
pub use mathlib.Core.Option.{Option, none, some}
pub use mathlib.Core.List.{List, [], ◌∷◌, ◌++◌, map, Memᴰ, Permᴰ}
pub use native.Mathlib.Omega.{arith}
