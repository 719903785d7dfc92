-- ===== src/Prelude.antt =====
-- The names that the other modules share: the libraries', passed on, and those of the children.
pub mod Tests
pub mod Lists
pub mod Ordered
pub mod Int
pub mod Strings
pub mod Stripping
pub use Tests.*
pub use Lists.*
pub use Ordered.*
pub use Int.*
pub use Stripping.*
pub use Strings.{Text, codes, is_space, or_none, text_eq, is_slash, cut, prefixed, ends_with}
unfoldable pub use Strings.{
  drop_while, take, rstrip_by, strip_by, strip, decimal_from, decimal, join, split_from, split,
  decimal_int,
}
pub use Prim.Native.Nat.{ℕ, zero, suc, ◌+◌, ◌-◌, ◌≤◌, ◌<◌}
pub use mathlib.Core.Path.{◌≡◌, refl, sym, ap, ap₂, subst, ◌∙◌}
pub use mathlib.Core.Logic.{◌≢◌, ◌↔◌, ◌⊎◌, inl, inr}
pub use mathlib.Core.Bool.{Bool, true, false, not, ◌&&◌, ◌||◌}
pub use mathlib.Core.Option.{Option, none, some}
pub use mathlib.Core.List.{List, [], ◌∷◌, ◌++◌, map}
pub use native.Mathlib.Omega.{arith}
