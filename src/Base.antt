-- ===== src/Base.antt =====
-- The names that the other modules share: the libraries', passed on, the Boolean tests, the lists
-- over native numbers and the maps that stand for Go's.
mod Tests
mod Lists
mod Maps
mod Int
mod Rows
pub mod Outcomes
pub mod Post
pub mod Swaps
pub use Tests.*
pub use Lists.*
pub use Maps.*
pub use Int.*
unfoldable pub use Rows.*
pub use Prim.Native.Nat.{ℕ, zero, suc, ◌+◌, ◌-◌, ◌*◌, ◌/◌, ◌%◌, ◌^◌, ◌≤◌, ◌<◌}
pub use mathlib.Core.Path.{◌≡◌, refl, sym, ap, ◌∙◌, subst}
pub use mathlib.Core.Logic.{◌≢◌, ◌↔◌, ◌⊎◌, inl, inr}
pub use mathlib.Core.Bool.{Bool, true, false, not, ◌&&◌, ◌||◌}
pub use mathlib.Core.Option.{Option, none, some}
pub use mathlib.Core.List.{List, [], ◌∷◌, ◌++◌, map, append-nil, append_assoc}
pub use native.Mathlib.Omega.{arith}
