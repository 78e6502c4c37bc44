-- ===== src/Common.antt =====
-- What the other files share: names of the libraries passed on, Boolean tests and conditionals,
-- lists over the native numbers, and the errors and the state monad of the services.
mod Tests
mod Lists
mod Action
mod Sort
mod Keyed
mod Frames
mod Measures
mod Texts
pub use Tests.*
pub use Lists.*
pub use Action.*
unfoldable pub use Sort.*
pub use Keyed.*
pub use Frames.*
pub use Measures.*
unfoldable pub use Texts.*
pub use Prim.Native.Nat.{ℕ, zero, suc, ◌+◌, ◌-◌, ◌*◌, ◌≤◌, ◌<◌, min, max}
pub use mathlib.Core.Path.{◌≡◌, refl, sym, ap, ◌∙◌, subst}
pub use mathlib.Core.Logic.{◌≢◌, ◌↔◌, ◌⊎◌, inl, inr}
pub use mathlib.Core.Bool.{Bool, true, false, not, ◌&&◌, ◌||◌}
pub use mathlib.Core.Option.{Option, none, some}
pub use mathlib.Core.List.{List, [], ◌∷◌, ◌++◌, map, reverse}
pub use native.Mathlib.Omega.{arith}
unfoldable pub use native.Mathlib.Decide.{ℕ_discrete}
