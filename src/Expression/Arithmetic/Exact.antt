-- ===== src/Expression/Arithmetic/Exact.antt =====
-- The arithmetic of two ints against the integers: the result is exact, or there is none.
use native.Mathlib.Nat.{div-mul-le_self, lt-div-mul-add}
use sc_open.Prelude.{
  ℕ, zero, suc, ◌+◌, ◌*◌, ◌/◌, ◌≤◌, ◌<◌, ◌≡◌, refl, inl, inr, Bool, true, false, some, arith,
  Bool-cases,
}
use sc_open.Numbers.{ℤ, pos, negsuc, signed}
use sc_open.Numbers.Int.{pos_part, neg_part, sub_ℕ, ◌+ℤ◌, ◌-ℤ◌, ◌*ℤ◌, quotient, eq_ℤ, in_int}
use sc_open.Expression.{
  Operator, plus, minus, mult, divide, period, colon, logical_and, logical_or, bitwise_and,
  bitwise_or, bitwise_xor, less_than, greater_than, equal, not_equal, less_than_equal,
  greater_than_equal, str_equal, str_not_equal, Text,
}
use sc_open.Expression.Arithmetic.{
  Clib, Outcome, result, error, undefined, isint, int_result, int_math, add_sub_mult_div,
}

abbrev pub magnitude : ℤ → ℕ
magnitude (pos n) = n
magnitude (negsuc n) = suc n

-- No result is negative where the signs agree, and none is positive where they do not.
abbrev pub HasSign : (a b c : ℤ) → Type 0
HasSign (pos m) (pos n) c = neg_part c ≡ 0
HasSign (pos m) (negsuc n) c = pos_part c ≡ 0
HasSign (negsuc m) (pos n) c = pos_part c ≡ 0
HasSign (negsuc m) (negsuc n) c = neg_part c ≡ 0

-- c times a is the most of b, in magnitude.
abbrev pub IsFraction : (a b c : ℤ) → Type 0
IsFraction a b c =
    (magnitude c * magnitude a ≤ magnitude b)
    × (magnitude b < magnitude c * magnitude a + magnitude a)

-- That c is i1 + i2, i2 - i1, i1 * i2, or i2 / i1 without its fraction.
abbrev pub IsExact : Operator → (i1 i2 c : ℤ) → Type 0
IsExact plus a b c = pos_part c + (neg_part a + neg_part b) ≡ neg_part c + (pos_part a + pos_part b)
IsExact minus a b c =
    pos_part c + (neg_part b + pos_part a) ≡ neg_part c + (pos_part b + neg_part a)
IsExact mult a b c =
    pos_part c + (pos_part a * neg_part b + neg_part a * pos_part b)
    ≡ neg_part c + (pos_part a * pos_part b + neg_part a * neg_part b)
IsExact divide a b c = HasSign a b c × IsFraction a b c
IsExact _ a b c = ⊥

sub_ℕ-parts : (m n : ℕ) → pos_part (sub_ℕ m n) + n ≡ neg_part (sub_ℕ m n) + m
sub_ℕ-parts m n = ground arith

signed-parts : (n : ℕ) → (pos_part (signed true n) ≡ 0) × (magnitude (signed true n) ≡ n)
unfolding signed
signed-parts zero = (refl, refl)
signed-parts (suc n) = (refl, refl)

fraction :
    (a b c : ℤ) → 0 < magnitude a → magnitude c ≡ magnitude b / magnitude a → IsFraction a b c
fraction a b c some_part e =
    rw e (div-mul-le_self (magnitude b) (magnitude a), lt-div-mul-add some_part)

quotient-IsExact : (a b : ℤ) → eq_ℤ a (pos 0) ≡ false → IsExact divide a b (quotient b a)
unfolding quotient
quotient-IsExact (pos m) (pos n) h =
    (refl, fraction (pos m) (pos n) (pos (n / m)) (ground arith) refl)
quotient-IsExact (pos m) (negsuc n) h =
    let q = signed-parts (suc n / m) in
    (q.0, fraction (pos m) (negsuc n) (signed true (suc n / m)) (ground arith) q.1)
quotient-IsExact (negsuc m) (pos n) h =
    let q = signed-parts (n / suc m) in
    (q.0, fraction (negsuc m) (pos n) (signed true (n / suc m)) (omega arith) q.1)
quotient-IsExact (negsuc m) (negsuc n) h =
    (refl, fraction (negsuc m) (negsuc n) (pos (suc n / suc m)) (omega arith) refl)

module _ {F : Type 0} (c : Clib F) where
  -- The text of an exact result in the range of an int; an error when 0 divides; or no meaning, as
  -- the exact result is out of the range.
  abbrev pub Meets : Operator → (i1 i2 : ℤ) → Outcome → Type 0
  Meets type a b (result t) = (k : ℤ) × (t ≡ c.print_int k) × (in_int k ≡ true) × IsExact type a b k
  Meets type a b error = (type ≡ divide) × (eq_ℤ a (pos 0) ≡ true)
  Meets type a b undefined = (k : ℤ) × (in_int k ≡ false) × IsExact type a b k

  int_result-Meets :
      (type : Operator) (a b k : ℤ) → IsExact type a b k → Meets type a b (int_result c k)
  unfolding int_result
  int_result-Meets type a b k exact = elim (Bool-cases (in_int k)) [
    | inl small ↦ rw small (k, refl, small, exact)
    | inr large ↦ rw large (k, large, exact)
  ]

  abbrev pub is_arithmetic : Operator → Bool
  is_arithmetic plus = true
  is_arithmetic minus = true
  is_arithmetic mult = true
  is_arithmetic divide = true
  is_arithmetic _ = false

  int_math-Meets :
      (type : Operator) (a b : ℤ) → is_arithmetic type ≡ true → Meets type a b (int_math c type a b)
  unfolding int_math ◌+ℤ◌ ◌-ℤ◌ ◌*ℤ◌
  int_math-Meets plus a b h = int_result-Meets plus a b (a +ℤ b) (sub_ℕ-parts _ _)
  int_math-Meets minus a b h = int_result-Meets minus a b (b -ℤ a) (sub_ℕ-parts _ _)
  int_math-Meets mult a b h = int_result-Meets mult a b (a *ℤ b) (sub_ℕ-parts _ _)
  int_math-Meets divide a b h = elim (Bool-cases (eq_ℤ a (pos 0))) [
    | inl nothing ↦ rw nothing (refl, nothing)
    | inr some_part ↦
        rw some_part (int_result-Meets divide a b (quotient b a) (quotient-IsExact a b some_part))
  ]
  int_math-Meets period a b h = cc
  int_math-Meets colon a b h = cc
  int_math-Meets logical_and a b h = cc
  int_math-Meets logical_or a b h = cc
  int_math-Meets bitwise_and a b h = cc
  int_math-Meets bitwise_or a b h = cc
  int_math-Meets bitwise_xor a b h = cc
  int_math-Meets less_than a b h = cc
  int_math-Meets greater_than a b h = cc
  int_math-Meets equal a b h = cc
  int_math-Meets not_equal a b h = cc
  int_math-Meets less_than_equal a b h = cc
  int_math-Meets greater_than_equal a b h = cc
  int_math-Meets str_equal a b h = cc
  int_math-Meets str_not_equal a b h = cc

  -- For the operators +, -, * and / on texts that are ints, outside of a syntax check,
  -- add_sub_mult_div() gives the sum, arg2 - arg1, the product or arg2 / arg1 without its fraction,
  -- exactly, as an int; the error return only when 0 divides; and C gives the run no meaning only
  -- when the exact result is no int.
  pub add_sub_mult_div-Meets :
      (type : Operator) (arg1 arg2 : Text) (i1 i2 : ℤ)
      → is_arithmetic type ≡ true
      → isint c arg1 ≡ some i1
      → isint c arg2 ≡ some i2
      → Meets type i1 i2 (add_sub_mult_div c false type arg1 arg2)
  unfolding add_sub_mult_div
  add_sub_mult_div-Meets type arg1 arg2 i1 i2 h e1 e2 = rw (e1, e2) (int_math-Meets type i1 i2 h)
