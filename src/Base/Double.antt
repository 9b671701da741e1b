-- ===== src/Base/Double.antt =====
-- `double` and the library functions that the program applies to it. Floating-point arithmetic
-- is the platform's: its operations are an interface, and a theorem that needs a law of the order
-- takes it by name.
use Prim.Native.Nat.{ℕ}
use mathlib.Core.Path.{◌≡◌}
use mathlib.Core.Bool.{Bool, true, false}
use arch_task_manager.Base.Texts.{Text}

pub record Double (F : Type 0) : Type 0 where
  -- The comparisons `<` and `<=`; both are false where an operand is not a number.
  pub lt : F → F → Bool
  pub le : F → F → Bool
  pub is_finite : F → Bool
  -- A literal that is a whole number, and the conversion of an unsigned integer.
  pub of_nat : ℕ → F
  pub neg : F → F
  pub abs : F → F
  pub add : F → F → F
  pub mul : F → F → F
  pub div : F → F → F
  -- `std::fixed << std::setprecision(n) << v`.
  pub fixed : ℕ → F → Text

-- What the program relies on of the order: a number below `b` is below all that `b` is at most.
pub record IsOrdered {F : Type 0} (d : Double F) : Type 0 where
  pub lt_le_trans : (a b c : F) → d.lt a b ≡ true → d.le b c ≡ true → d.lt a c ≡ true
  pub lt_not_le : (a b : F) → d.lt a b ≡ true → d.le b a ≡ false
