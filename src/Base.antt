-- ===== src/Base.antt =====
-- What the components share: the libraries' names, passed on, and those of the children, which
-- model what the program uses of Go's language and standard library (tests, slices, text, maps).
pub mod Tests
pub mod Lists
pub mod Map
pub mod Text
pub mod Int
pub mod Errors
pub mod Decimal
pub use Tests.*
pub use Lists.*
pub use Prim.Native.Nat.{ℕ, zero, suc, ◌+◌, ◌-◌, ◌*◌, ◌/◌, ◌%◌, ◌^◌, ◌≤◌, ◌<◌}
pub use Prim.Native.String.{String}
pub use mathlib.Core.Path.{◌≡◌, refl, sym, ap, ◌∙◌}
pub use mathlib.Core.Logic.{◌≢◌, ◌↔◌, ◌⊎◌, inl, inr}
pub use mathlib.Core.Bool.{Bool, true, false, not, ◌&&◌, ◌||◌}
pub use mathlib.Core.Option.{Option, none, some}
pub use mathlib.Core.List.{List, [], ◌∷◌, ◌++◌, map}
pub use native.Mathlib.Omega.{arith}
pub use text.Mathlib.TextEquality.{eq_iff}
pub use Errors.*
pub use Int.{ℤ, pos, negsuc, pos_part, ◌+ℤ◌, ◌≤ℤ◌, ltb_ℤ}
unfoldable pub use Text.{concat}
pub use Text.{
  is_blank, has_prefix, has_suffix, trim_prefix, contains, replace_all, split_dot, String-set,
}
