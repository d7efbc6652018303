-- ===== src/Base.antt =====
-- The names that every other module shares: those of the libraries, passed on, and those of the
-- children.
mod Tests
mod Lists
mod Bits
mod Xor
mod Division
mod Masks
mod Reverse
mod Int
mod Decimal
mod Utf8
mod Slices
pub use Tests.*
pub use Lists.*
pub use Bits.*
pub use Xor.*
pub use Division.*
pub use Masks.*
unfoldable pub use Reverse.*
unfoldable pub use Int.*
unfoldable pub use Decimal.*
unfoldable pub use Utf8.*
pub use Slices.*
pub use Prim.Native.Nat.{ℕ, zero, suc, ◌+◌, ◌-◌, ◌*◌, ◌/◌, ◌%◌, ◌^◌, ◌≤◌, ◌<◌, min, max}
pub use Prim.Native.Nat.{bit_and, bit_or, bit_xor}
pub use mathlib.Core.Path.{◌≡◌, refl, sym, ap, ◌∙◌, subst}
pub use mathlib.Core.Logic.{◌≢◌, ◌↔◌, ◌⊎◌, inl, inr}
pub use mathlib.Core.Bool.{Bool, true, false, not, ◌&&◌, ◌||◌, false≢true}
pub use mathlib.Core.Option.{Option, none, some}
pub use mathlib.Core.List.{List, [], ◌∷◌, ◌++◌, reverse, append-nil, append_assoc}
pub use native.Mathlib.Omega.{arith}
