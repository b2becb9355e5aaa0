-- ===== src/Prelude.antt =====
-- The names that the other modules share: those of the libraries, passed on, and those of the
-- children: conditionals and case splits (Tests), texts (Text), slices and maps of Go (Slices) and
-- results of Go functions (Errors).
mod Tests
mod Text
mod Errors
mod Slices
pub use Tests.*
pub use Text.{codes}
unfoldable pub use Text.{String-discrete, lower_is}
pub use Errors.*
pub use Slices.{Slice, items, Labels}
pub use Slices.{find_entry-put_entry, find_entry-drop_entry, label-delete_label}
unfoldable pub use Slices.{
  find_entry, put_entry, drop_entry, label, label_or_empty, delete_label, assign_label,
}
pub use Prim.Native.Nat.{ℕ, zero, suc, ◌+◌, ◌*◌, ◌-◌, ◌≤◌, ◌<◌}
pub use Prim.Native.String.{String}
pub use mathlib.Core.Path.{◌≡◌, refl, sym, ap, ◌∙◌}
pub use mathlib.Core.Logic.{◌≢◌, ◌↔◌, ◌⊎◌, inl, inr}
pub use mathlib.Core.Bool.{Bool, true, false, not, ◌&&◌, ◌||◌}
pub use mathlib.Core.Option.{Option, none, some}
pub use mathlib.Core.List.{List, [], ◌∷◌, ◌++◌, map}
pub use native.Mathlib.Omega.{arith}
pub use text.Mathlib.Text.{◌==◌}
pub use text.Mathlib.TextEquality.{eq_iff}
pub use text.Mathlib.TextPositions.{eq_refl}
