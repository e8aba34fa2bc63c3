-- ===== src/Prelude.antt =====
-- The names that the other modules share: the libraries', passed on, and those of the children.
mod Tests
mod Lists
mod Strings
pub mod TextLaws
pub mod Utf8
pub mod Dict
pub mod Decimal
pub mod Percent
pub mod Results
pub mod Int
pub use Tests.*
pub use Lists.*
pub use Strings.{
  Text, codes, option_eq, is_truthy, cons_unless, push_head, text_eq_refl, text_eq_iff,
}
unfoldable pub use Strings.{
  text_eq, starts_with, contains, ends_with, strip_start, strip_end, strip, is_space, split,
  split_once, split_last,
}
pub use Prim.Native.Nat.{ℕ, zero, suc, ◌+◌, ◌-◌, ◌*◌, ◌/◌, ◌%◌, ◌^◌, ◌≤◌, ◌<◌}
pub use Prim.Native.String.{String}
pub use mathlib.Core.Path.{◌≡◌, refl, sym, ap, ap₂, ◌∙◌, subst, fun_ext, ◌≡⟨◌⟩◌, ◌∎}
pub use mathlib.Core.Logic.{◌≢◌, ◌↔◌, ◌⊎◌, inl, inr}
pub use mathlib.Core.Bool.{Bool, true, false, not, ◌&&◌, ◌||◌, false≢true}
pub use mathlib.Core.Option.{Option, none, some}
pub use mathlib.Core.List.{List, [], ◌∷◌, ◌++◌, map, append-nil, append_assoc, map-append}
pub use native.Mathlib.Omega.{arith}
