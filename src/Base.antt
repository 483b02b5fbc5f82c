-- ===== src/Base.antt =====
-- The names that every component shares: the libraries', passed on, and those of the children.
mod Tests
mod Lists
mod Compare
mod Maps
mod Slices
mod Sets
pub use Tests.*
pub use Lists.*
pub use Compare.*
pub use Slices.*
pub use Sets.{IsDistinct, add_to-IsDistinct, contains-add_to, contains_of_length}
unfoldable pub use Sets.{contains, add_to}
pub use Maps.{
  Map, is_some, values, IsUnique, lookup-insert, lookup-remove, lookup-retain, insert-IsUnique,
  remove-IsUnique, retain-IsUnique, length_le_of_window,
}
unfoldable pub use Maps.{lookup, insert, remove, retain, extend}
pub use Prim.Native.Nat.{ℕ, zero, suc, ◌+◌, ◌-◌, ◌*◌, ◌/◌, ◌%◌, ◌^◌, ◌≤◌, ◌<◌, min, max}
pub use mathlib.Core.Path.{◌≡◌, refl, sym, ap, ◌∙◌}
pub use mathlib.Core.Logic.{◌≢◌, ◌↔◌, ◌⊎◌, inl, inr}
pub use mathlib.Core.Bool.{Bool, true, false, not, ◌&&◌, ◌||◌}
pub use mathlib.Core.Option.{Option, none, some}
pub use mathlib.Core.List.{List, [], ◌∷◌, ◌++◌, map, reverse}
unfoldable pub use mathlib.Core.List.{filter_map}
pub use native.Mathlib.Omega.{arith}
