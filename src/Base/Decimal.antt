-- ===== src/Base/Decimal.antt =====
-- `std::to_string` and `std::stoi` on the numbers that the program prints and reads back.
use Prim.Native.Nat.{ℕ, zero, suc, ◌+◌, ◌-◌, ◌*◌, ◌/◌, ◌%◌, ◌<◌}
use mathlib.Core.Path.{◌≡◌, refl, ap, ◌∙◌}
use mathlib.Core.Logic.{inl, inr}
use mathlib.Core.Bool.{Bool, true, ◌&&◌}
use mathlib.Core.Option.{Option, none, some}
use mathlib.Core.List.{[], ◌∷◌, ◌++◌}
use native.Mathlib.Omega.{arith}
use arch_task_manager.Base.Tests.{ltb, leb, if◌then◌else◌, Bool-cases}
use arch_task_manager.Base.Lists.{length, length-append, All, All-append}
use arch_task_manager.Base.Texts.{Text}

abbrev pub is_digit : ℕ → Bool
is_digit c = leb b'0' c && leb c b'9'

-- The digits of `n`, the most significant first; `n` rounds are enough below `n`.
digits : ℕ → ℕ → Text
digits zero n = []
digits (suc f) n =
    let rest = digits f (n / 10) ++ ((b'0' + n % 10) ∷ []) in
    if ltb n 10 then (b'0' + n) ∷ [] else rest

unfoldable pub to_string : ℕ → Text
unfolding digits
to_string n = digits (suc n) n

-- The number that a text of digits spells, after the digits read so far.
spelled : ℕ → Text → ℕ
spelled acc [] = acc
spelled acc (c ∷ s) = if is_digit c then spelled (acc * 10 + (c - b'0')) s else acc

-- `std::stoi` of a text that starts with no sign and no space; it throws if no digit stands first.
unfoldable pub stoi : Text → Option ℕ
unfolding spelled
stoi [] = none
stoi (c ∷ s) = if is_digit c then some (spelled 0 (c ∷ s)) else none

abbrev pub Digits : Text → Type 0
Digits = All (λ c. is_digit c ≡ true)

spelled-append :
    (s t : Text) (acc : ℕ) → Digits s → spelled acc (s ++ t) ≡ spelled (spelled acc s) t
unfolding spelled
spelled-append [] t acc h = refl
spelled-append (c ∷ s) t acc h = rw h.0 (spelled-append s t (acc * 10 + (c - b'0')) h.1)

digits-Digits : (f n : ℕ) → n < f → Digits (digits f n)
unfolding digits
digits-Digits zero n h = tt
digits-Digits (suc f) n h = elim (Bool-cases (ltb n 10)) [
  | inl small ↦ rw small (ground arith, tt)
  | inr large ↦ rw large (
      All-append (λ c. is_digit c ≡ true) (digits f (n / 10)) ((b'0' + n % 10) ∷ [])
        (digits-Digits f (n / 10) (ground arith)) (ground arith, tt))
]

spelled-digits : (f n : ℕ) → n < f → spelled 0 (digits f n) ≡ n
unfolding digits spelled
spelled-digits zero n h = elim h [ ]
spelled-digits (suc f) n h = elim (Bool-cases (ltb n 10)) [
  | inl small ↦ rw small (ground arith)
  | inr large ↦ rw large (
      spelled-append (digits f (n / 10)) ((b'0' + n % 10) ∷ []) 0
        (digits-Digits f (n / 10) (ground arith))
      ∙ ground (arith, spelled-digits f (n / 10)))
]

-- The text of a number is made of digits.
pub to_string-Digits : (n : ℕ) → Digits (to_string n)
unfolding to_string
to_string-Digits n = digits-Digits (suc n) n (omega arith)

length-digits : (f n : ℕ) → n < f → 0 < length (digits f n)
unfolding digits
length-digits zero n h = elim h [ ]
length-digits (suc f) n h = ground (arith, length-append (digits f (n / 10)) ((b'0' + n % 10) ∷ []))

stoi-of_Digits : (s : Text) → Digits s → 0 < length s → stoi s ≡ some (spelled 0 s)
unfolding stoi
stoi-of_Digits [] h l = absurd (omega arith)
stoi-of_Digits (c ∷ s) h l = rw h.0

-- A number that is printed and read back is the same number.
pub stoi-to_string : (n : ℕ) → stoi (to_string n) ≡ some n
unfolding to_string
stoi-to_string n =
    stoi-of_Digits (digits (suc n) n) (digits-Digits (suc n) n (omega arith))
      (length-digits (suc n) n (omega arith))
    ∙ ap some (spelled-digits (suc n) n (omega arith))
