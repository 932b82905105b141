-- ===== src/Base.antt =====
-- The names that every component shares: the libraries' own, passed on, and those of the children.
mod Tests
mod Equality
mod Lists
mod Members
mod Errors
mod Int
pub mod Order
pub mod Sort
pub mod Keyed
pub mod Finding
pub mod Minimal
pub mod Counting
pub mod Distinct
pub mod Fresh
pub mod Texts
unfoldable pub use Tests.*
unfoldable pub use Equality.*
unfoldable pub use Members.*
unfoldable pub use Lists.*
unfoldable pub use Errors.*
unfoldable pub use Int.*
pub use Prim.Native.Nat.{ℕ, zero, suc, ◌+◌, ◌-◌, ◌*◌, ◌≤◌, ◌<◌}
pub use Prim.Native.String.{String}
pub use mathlib.Core.Path.{◌≡◌, refl, sym, ap, ap₂, ◌∙◌, subst}
pub use mathlib.Core.Logic.{◌≢◌, ◌↔◌, ◌⊎◌, inl, inr}
pub use mathlib.Core.Bool.{Bool, true, false, ◌&&◌, ◌||◌, not}
pub use mathlib.Core.Option.{Option, none, some}
pub use mathlib.Core.List.{List, [], ◌∷◌, ◌++◌, map}
pub use native.Mathlib.Omega.{arith}
unfoldable pub use native.Mathlib.Decide.{ℕ_discrete}
