-- ===== src/Base.antt =====
-- The names that the other modules share: the library's, passed on, and those of the children.
pub mod Tests
mod Lists
pub mod Bits
pub mod Int
pub mod Run
pub use Int.{ℤ, pos, negsuc, ltb_ℤ, char_of_byte}
pub use Tests.*
pub use Lists.*
pub use Prim.Native.Nat.{ℕ, zero, suc, ◌+◌, ◌-◌, ◌*◌, ◌/◌, ◌%◌, ◌^◌, ◌≤◌, ◌<◌, min, bit_and, bit_or}
pub use mathlib.Core.Path.{◌≡◌, refl, sym, ap, ap₂, ◌∙◌, subst, fun_ext}
pub use mathlib.Core.Logic.{◌≢◌, ◌↔◌, ◌⊎◌, inl, inr}
pub use mathlib.Core.Bool.{Bool, true, false, not, ◌&&◌, ◌||◌}
pub use mathlib.Core.Option.{Option, none, some}
pub use mathlib.Core.List.{List, [], ◌∷◌, ◌++◌, map, append-nil, append_assoc}
pub use native.Mathlib.Omega.{arith}
pub use native.Mathlib.Numerals.{add-one}
unfoldable pub use native.Mathlib.Decide.{dec_lt, ℕ_discrete}
