-- ===== src/Base.antt =====
-- The names that every module shares: the libraries' own, passed on, and those of the children:
-- Boolean tests, integers of Go's signed types, byte strings, lists and maps.
mod Tests
mod Lists
mod Int
mod Words
mod Strings
mod Numbers
mod Spaces
mod Maps
pub use Tests.*
unfoldable pub use Lists.*
unfoldable pub use Int.*
unfoldable pub use Words.*
unfoldable pub use Strings.*
unfoldable pub use Numbers.*
unfoldable pub use Spaces.*
unfoldable pub use Maps.*
pub use Prim.Native.Nat.{ℕ, zero, suc, ◌+◌, ◌-◌, ◌*◌, ◌/◌, ◌%◌, ◌^◌, ◌≤◌, ◌<◌}
pub use mathlib.Core.Path.{◌≡◌, refl, sym, ap, ◌∙◌}
pub use mathlib.Core.Logic.{◌≢◌, ◌↔◌, ◌⊎◌, inl, inr}
pub use mathlib.Core.Bool.{Bool, true, false, ◌&&◌, ◌||◌, not}
pub use mathlib.Core.Option.{Option, none, some}
pub use mathlib.Core.List.{List, [], ◌∷◌, ◌++◌, map}
pub use native.Mathlib.Omega.{arith}
