-- ===== src/Prelude.antt =====
-- The names that the other modules share: the libraries', passed on, and those of the children
-- (Boolean tests, decidable keys, list functions of JavaScript, its insertion-ordered Set and Map,
-- sorting, and search in a text).
mod Tests
mod Keys
mod Lists
mod Members
mod Sets
mod Maps
mod Sorting
mod Texts
mod Awaits
pub use Tests.*
pub use Keys.*
pub use Lists.*
pub use Members.*
pub use Awaits.*
unfoldable pub use Maps.*
unfoldable pub use Sets.*
unfoldable pub use Sorting.*
unfoldable pub use Texts.*
pub use Prim.Native.Nat.{ℕ, zero, suc, ◌+◌, ◌-◌, ◌*◌, ◌/◌, ◌%◌, ◌≤◌, ◌<◌}
pub use Prim.Native.String.{String}
pub use mathlib.Core.Path.{◌≡◌, refl, sym, ap, ◌∙◌}
pub use mathlib.Core.Logic.{◌≢◌, ◌↔◌, ◌⊎◌, inl, inr}
pub use mathlib.Core.Bool.{Bool, true, false, not, ◌&&◌, ◌||◌}
pub use mathlib.Core.Option.{Option, none, some, get_or}
pub use mathlib.Core.List.{List, [], ◌∷◌, ◌++◌, map}
pub use native.Mathlib.Omega.{arith}
