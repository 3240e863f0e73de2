-- ===== src/Base.antt =====
-- The names that the other modules share: the libraries' names, and those of the children.
pub mod Tests
pub mod Equality
pub mod Lists
pub mod Sets
pub mod Dicts
pub mod Values
pub mod Sorting
pub mod Results
pub mod Integers
pub use Tests.*
pub use Equality.*
pub use Lists.*
unfoldable pub use Sets.*
unfoldable pub use Dicts.*
pub use Values.*
unfoldable pub use Sorting.*
pub use Results.*
pub use Integers.*
pub use Prim.Native.Nat.{ℕ, zero, suc, ◌+◌, ◌-◌, ◌*◌, ◌≤◌, ◌<◌, min}
pub use Prim.Native.String.{String}
pub use mathlib.Core.Path.{◌≡◌, refl, sym, ap, ◌∙◌}
pub use mathlib.Core.Logic.{◌≢◌, ◌↔◌, ◌⊎◌, inl, inr}
pub use mathlib.Core.Bool.{Bool, true, false, not, ◌&&◌, ◌||◌}
pub use mathlib.Core.Option.{Option, none, some}
pub use mathlib.Core.List.{List, [], ◌∷◌, ◌++◌, map, reverse}
pub use native.Mathlib.Omega.{arith}
