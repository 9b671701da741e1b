-- ===== src/Base/Int.antt =====
-- `int`: whole numbers with a sign. `negsuc n` is -(n + 1).
use Prim.Native.Nat.{ℕ, ◌+◌}
use mathlib.Core.Path.{◌≡◌, ap, sym}
use mathlib.Core.Logic.{◌↔◌}
use mathlib.Core.Bool.{Bool, true, false}
use mathlib.Core.Bool.{false≢true}
use mathlib.Core.List.{◌∷◌}
use arch_task_manager.Base.Tests.{ltb, eqb, eqb_iff}
use arch_task_manager.Base.Eq.{Equality}
use arch_task_manager.Base.Texts.{Text}
use arch_task_manager.Base.Decimal.{to_string}

pub data ℤ : Type 0 where
  pos : ℕ → ℤ
  negsuc : ℕ → ℤ

-- `n > 0`.
abbrev pub is_positive : ℤ → Bool
is_positive (pos n) = ltb 0 n
is_positive (negsuc n) = false

-- `==` on `int`.
abbrev pub int_eqb : ℤ → ℤ → Bool
int_eqb (pos m) (pos n) = eqb m n
int_eqb (pos m) (negsuc n) = false
int_eqb (negsuc m) (pos n) = false
int_eqb (negsuc m) (negsuc n) = eqb m n

-- The number of a constructor, to tell them apart.
magnitude : ℤ → ℕ
magnitude (pos m) = m
magnitude (negsuc m) = m

is_pos : ℤ → Bool
is_pos (pos m) = true
is_pos (negsuc m) = false

pub int_eqb_iff : (a b : ℤ) → (int_eqb a b ≡ true) ↔ (a ≡ b)
unfolding magnitude is_pos
int_eqb_iff (pos m) (pos n) =
    (λ e. ap pos ((eqb_iff m n).0 e), λ e. (eqb_iff m n).1 (ap magnitude e))
int_eqb_iff (pos m) (negsuc n) =
    (λ e. absurd (false≢true e), λ e. absurd (false≢true (sym (ap is_pos e))))
int_eqb_iff (negsuc m) (pos n) =
    (λ e. absurd (false≢true e), λ e. absurd (false≢true (ap is_pos e)))
int_eqb_iff (negsuc m) (negsuc n) =
    (λ e. ap negsuc ((eqb_iff m n).0 e), λ e. (eqb_iff m n).1 (ap magnitude e))

instance abbrev pub int_equality : Equality ℤ
int_equality = record { beq = int_eqb; beq_iff = int_eqb_iff }

-- `a < b` on `int`.
abbrev pub int_ltb : ℤ → ℤ → Bool
int_ltb (pos m) (pos n) = ltb m n
int_ltb (pos m) (negsuc n) = false
int_ltb (negsuc m) (pos n) = true
int_ltb (negsuc m) (negsuc n) = ltb n m

-- `std::to_string` of an `int`.
unfoldable pub int_text : ℤ → Text
int_text (pos n) = to_string n
int_text (negsuc n) = b'-' ∷ to_string (n + 1)
