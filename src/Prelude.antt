-- ===== src/Prelude.antt =====
-- The names that the modules share: the libraries', passed on, and those of the children.
mod Tests
mod Lists
mod Tables
mod Kept
mod Texts
mod Rowwise
mod Selection
mod Ordering
pub use Tests.*
pub use Lists.*
pub use Rowwise.{
  Moves, Moves-refl, Moves-update_where, Moves-update_where_All, Moves-All, Moves-map, Chain, done,
  next, Chain-All, Chain-map, Chain-trans,
}
unfoldable pub use Selection.{insert_by, order_by, contains_key, select_due}
pub use Selection.{
  All-order_by, IsCandidate, select_due-IsCandidate, length-select_due, IsUnique-select_due,
  selected-IsCandidate,
}
pub use Ordering.{
  IsOrder, IsOrdered, IsOrdered-order_by, Has-order_by, Has-select_where, IsServed,
  IsServed-select_due,
}
unfoldable pub use Texts.{take_text, append_text, concat_texts, get_or_text}
unfoldable pub use Tables.{update_where, select_where, count_where, find_where}
pub use Tables.{
  All-update_where, All-update_where_new, All-update_where_made, map-update_where,
  Fresh-select_where, find_where_sound, find_where-Has, find_where-append_self,
  find_where-update_where, All-update_where_each, All-select_where,
}
pub use Kept.{update_where-keeps, found-update_where, select_where-update_where, select_where-keeps}
pub use Prim.Native.Nat.{ℕ, zero, suc, ◌+◌, ◌-◌, ◌*◌, ◌/◌, ◌%◌, ◌^◌, ◌≤◌, ◌<◌, min, max}
pub use Prim.Native.String.{String}
pub use mathlib.Core.Path.{◌≡◌, refl, sym, ap, ap₂, ◌∙◌, subst}
pub use mathlib.Core.Logic.{◌≢◌, ◌↔◌, ◌⊎◌, inl, inr}
pub use mathlib.Core.Bool.{Bool, true, false, not, ◌&&◌, ◌||◌}
pub use mathlib.Core.Option.{Option, none, some}
pub use mathlib.Core.List.{List, [], ◌∷◌, ◌++◌, map}
pub use native.Mathlib.Omega.{arith}
pub use text.Mathlib.Text.{◌==◌ as str_eq}
pub use text.Mathlib.TextEquality.{eq_iff}
