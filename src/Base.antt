-- ===== src/Base.antt =====
-- The names that the modules of this library share: the libraries' data types and operators, and
-- the tests, lists, texts, maps and floating-point interface of the modules below.
mod Tests
mod Lists
mod Eq
mod Texts
mod Maps
pub mod Decimal
pub mod Double
pub mod Int
pub mod Elapsed
pub use Tests.*
pub use Lists.*
pub use Texts.{Text, codes, text_beq_iff, text_equality}
unfoldable pub use Texts.{text_beq}
unfoldable pub use Maps.{find, insert, erase, modify}
pub use Maps.{
  Map, has, find-insert, find-insert_self, find-erase, length-insert, Distinct, insert-Distinct,
  erase-Distinct, All-insert, length-erase, find-modify_other, find-insert_other, find-erase_other,
  has-modify, modify-Distinct, All-modify, All-erase,
}
pub use Eq.{Equality, beq_refl, beq_false, nat_equality, ◌==◌}
pub use Prim.Native.Nat.{ℕ, zero, suc, ◌+◌, ◌-◌, ◌*◌, ◌/◌, ◌%◌, ◌^◌, ◌≤◌, ◌<◌, min, max}
pub use Prim.Native.String.{String}
pub use mathlib.Core.Path.{◌≡◌, refl, sym, ap, ap₂, subst, ◌∙◌}
pub use mathlib.Core.Logic.{◌≢◌, ◌↔◌, ◌⊎◌, inl, inr}
pub use mathlib.Core.Bool.{Bool, true, false, not, ◌&&◌, ◌||◌}
pub use mathlib.Core.Option.{Option, none, some}
pub use mathlib.Core.List.{List, [], ◌∷◌, ◌++◌, map}
pub use native.Mathlib.Omega.{arith}
