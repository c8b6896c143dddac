-- ===== src/Base.antt =====
-- The names that the other modules share: the libraries', passed on, and those of the children.
mod Tests
mod Lists
mod Equality
mod Sort
mod Int
pub use Tests.*
pub use Lists.*
pub use Sort.{sorted, insert_sorted}
unfoldable pub use Sort.{text_le}
pub use Equality.{Eq, ◌==◌, nat_eq, text_eq, bool_eq, ==-refl, ==→≡, Text, codes}
unfoldable pub use Equality.{text_beq}
pub use Int.{ℤ, pos, negsuc, pos_part, neg_part, ◌-ℤ◌, ◌•ℤ◌, ◌≤ℤ◌, max_ℤ, min_ℤ}
pub use Prim.Native.Nat.{ℕ, zero, suc, ◌+◌, ◌-◌, ◌*◌, ◌/◌, ◌%◌, ◌≤◌, ◌<◌, min, max}
pub use Prim.Native.String.{String}
pub use mathlib.Core.Path.{◌≡◌, refl, sym, ap, ◌∙◌, subst, fun_ext}
pub use mathlib.Core.Logic.{◌≢◌, ◌↔◌, ◌⊎◌, inl, inr}
pub use mathlib.Core.Bool.{Bool, true, false, not, ◌&&◌, ◌||◌}
pub use mathlib.Core.Option.{Option, none, some}
pub use mathlib.Core.List.{List, [], ◌∷◌, ◌++◌, map}
pub use native.Mathlib.Omega.{arith}
