-- ===== src/Checks/Reading.antt =====
-- A small stand-in for `double`, to run the model with: whole numbers and a not-a-number.
use arch_task_manager.Base.{
  ℕ, ◌+◌, ◌-◌, ◌*◌, ◌/◌, ◌≡◌, refl, Bool, true, false, Text, codes, ◌∷◌, ltb, leb, arith,
}
use arch_task_manager.Base.Decimal.{to_string}
use arch_task_manager.Base.Double.{Double, IsOrdered}

pub data Reading : Type 0 where
  num : ℕ → Reading
  below_zero : ℕ → Reading
  not_a_number : Reading

abbrev reading_lt : Reading → Reading → Bool
reading_lt (num a) (num b) = ltb a b
reading_lt (num a) (below_zero b) = false
reading_lt (below_zero a) (num b) = true
reading_lt (below_zero a) (below_zero b) = ltb b a
reading_lt not_a_number b = false
reading_lt a not_a_number = false

abbrev reading_le : Reading → Reading → Bool
reading_le (num a) (num b) = leb a b
reading_le (num a) (below_zero b) = false
reading_le (below_zero a) (num b) = true
reading_le (below_zero a) (below_zero b) = leb b a
reading_le not_a_number b = false
reading_le a not_a_number = false

abbrev lift : (ℕ → ℕ → ℕ) → Reading → Reading → Reading
lift f (num a) (num b) = num (f a b)
lift f a b = not_a_number

abbrev reading_neg : Reading → Reading
reading_neg (num a) = below_zero (a - 1)
reading_neg (below_zero a) = num (a + 1)
reading_neg not_a_number = not_a_number

abbrev reading_abs : Reading → Reading
reading_abs (below_zero a) = num (a + 1)
reading_abs a = a

abbrev pub reading_text : Reading → Text
reading_text (num a) = to_string a
reading_text (below_zero a) = b'-' ∷ to_string (a + 1)
reading_text not_a_number = codes "nan"

abbrev reading_finite : Reading → Bool
reading_finite not_a_number = false
reading_finite a = true

instance abbrev pub reading_double : Double Reading
reading_double = record {
  lt = reading_lt;
  le = reading_le;
  is_finite = reading_finite;
  of_nat = num;
  neg = reading_neg;
  abs = reading_abs;
  add = lift ◌+◌;
  mul = lift ◌*◌;
  div = lift ◌/◌;
  fixed = λ n. reading_text;
}

pub reading-IsOrdered : IsOrdered reading_double
reading-IsOrdered = record { lt_le_trans = trans; lt_not_le = strict }
  where
    trans :
        (a b c : Reading) → reading_lt a b ≡ true → reading_le b c ≡ true → reading_lt a c ≡ true
    trans (num a) (num b) (num c) p q = ground arith
    trans (num a) (num b) (below_zero c) p q = ground arith
    trans (num a) (below_zero b) c p q = ground arith
    trans (below_zero a) (num b) (num c) p q = ground arith
    trans (below_zero a) (below_zero b) (num c) p q = ground arith
    trans (below_zero a) (below_zero b) (below_zero c) p q = ground arith
    trans (below_zero a) (num b) (below_zero c) p q = ground arith
    trans (num a) not_a_number c p q = ground arith
    trans (below_zero a) not_a_number c p q = ground arith
    trans not_a_number b c p q = ground arith
    trans (num a) (num b) not_a_number p q = ground arith
    trans (below_zero a) (num b) not_a_number p q = ground arith
    trans (below_zero a) (below_zero b) not_a_number p q = ground arith

    strict : (a b : Reading) → reading_lt a b ≡ true → reading_le b a ≡ false
    strict (num a) (num b) p = ground arith
    strict (num a) (below_zero b) p = ground arith
    strict (below_zero a) (num b) p = refl
    strict (below_zero a) (below_zero b) p = ground arith
    strict a not_a_number p = refl
    strict not_a_number b p = ground arith
