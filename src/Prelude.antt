-- ===== src/Prelude.antt =====
-- The names that the other modules share: the libraries', passed on, and those of the children.
mod Tests
mod Lists
mod Slices
mod Maps
mod Results
mod Members
mod Sorting
mod Hex
mod Int
mod Doubles
pub use Tests.*
pub use Lists.*
unfoldable pub use Maps.*
unfoldable pub use Slices.*
pub use Results.*
pub use Prim.Native.Nat.{ℕ, zero, suc, ◌+◌, ◌-◌, ◌*◌, ◌%◌, ◌^◌, ◌≤◌, ◌<◌}
pub use mathlib.Core.Path.{◌≡◌, refl, sym, ap, ◌∙◌, subst, fun_ext}
pub use mathlib.Core.Logic.{◌≢◌, ◌↔◌, ◌⊎◌, inl, inr}
pub use mathlib.Core.Bool.{Bool, true, false, not, ◌&&◌, ◌||◌}
pub use mathlib.Core.Option.{Option, none, some}
pub use mathlib.Core.List.{List, [], ◌∷◌, ◌++◌, map}
pub use native.Mathlib.Omega.{arith}
pub use Members.*
unfoldable pub use Sorting.*
unfoldable pub use Hex.*
unfoldable pub use Int.*
pub use Doubles.*
pub use mathlib.Core.List.{Memᴰ, append_assoc, append-nil}
