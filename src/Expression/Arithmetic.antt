-- ===== src/Expression/Arithmetic.antt =====
-- The operators on numbers of source/expression.c: add_sub_mult_div(), logical_bitwise() and
-- ones_complement(), with isint(). Texts become numbers through sscanf() and back through sprintf(),
-- of the C library; the arithmetic of floats is the machine's.
pub mod Exact
use Prim.Native.Nat.{bit_and, bit_or, bit_xor}
use sc_open.Prelude.{
  ℕ, ◌-◌, ◌^◌, Bool, true, false, not, ◌&&◌, ◌||◌, Option, none, some, List, [], ◌∷◌, leb, ◌==◌,
  if◌then◌else◌,
}
use sc_open.Numbers.{ℤ, pos, negsuc}
use sc_open.Numbers.Int.{◌+ℤ◌, ◌-ℤ◌, ◌*ℤ◌, quotient, ltb_ℤ, eq_ℤ, in_int, int_bits, of_bits}
use sc_open.Expression.{
  Operator, plus, minus, mult, divide, logical_and, logical_or, bitwise_and, bitwise_or,
  bitwise_xor, less_than, greater_than, equal, not_equal, less_than_equal, greater_than_equal, Text,
}
use sc_open.Expression.Solve.{Numeric}

-- "%d", with the text behind the number; "%g", which leaves 0 where there is no number; and how
-- sprintf() prints with "%d" and "%G".
pub record Clib (F : Type 0) : Type 0 where
  pub scan_int : Text → Option (ℤ × Text)
  pub print_int : ℤ → Text
  pub scan_float : Text → F
  pub print_float : F → Text
  pub of_bool : Bool → F
  pub add : F → F → F
  pub sub : F → F → F
  pub mul : F → F → F
  pub div : F → F → F
  pub is_zero : F → Bool
  pub lt : F → F → Bool
  pub le : F → F → Bool
  pub eq : F → F → Bool

-- The result in `token`, the error return, or a run to which C gives no meaning (an int overflows).
pub data Outcome : Type 0 where
  result : Text → Outcome
  error undefined : Outcome

abbrev pub is_space : ℕ → Bool
is_space c = (c == b' ') || (leb 9 c && leb c 13)

-- "%10s" finds nothing to read.
unfoldable pub is_blank : Text → Bool
is_blank [] = true
is_blank (c ∷ cs) = is_space c && is_blank cs

abbrev pub digit : Bool → Text
digit false = b'0' ∷ []
digit true = b'1' ∷ []

module _ {F : Type 0} (c : Clib F) where
  abbrev pub whole : Option (ℤ × Text) → Option ℤ
  whole none = none
  whole (some (i, junk)) = if is_blank junk then some i else none

  -- isint(), with the number that it has read.
  unfoldable pub isint : Text → Option ℤ
  isint p = whole (c.scan_int p)

  unfoldable pub int_result : ℤ → Outcome
  int_result i = if in_int i then result (c.print_int i) else undefined

  -- i1 and i2 are the numbers of arg1 and arg2; an operator of another kind leaves num_buf empty.
  unfoldable pub int_math : Operator → (i1 i2 : ℤ) → Outcome
  int_math plus i1 i2 = int_result (i1 +ℤ i2)
  int_math minus i1 i2 = int_result (i2 -ℤ i1)
  int_math mult i1 i2 = int_result (i1 *ℤ i2)
  int_math divide i1 i2 = if eq_ℤ i1 (pos 0) then error else int_result (quotient i2 i1)
  int_math _ i1 i2 = result []

  unfoldable pub float_math : Operator → (f1 f2 : F) → Outcome
  float_math plus f1 f2 = result (c.print_float (c.add f1 f2))
  float_math minus f1 f2 = result (c.print_float (c.sub f2 f1))
  float_math mult f1 f2 = result (c.print_float (c.mul f1 f2))
  float_math divide f1 f2 = if c.is_zero f1 then error else result (c.print_float (c.div f2 f1))
  float_math _ f1 f2 = result []

  abbrev pub by_numbers :
      Option ℤ → Option ℤ → (ints : ℤ → ℤ → Outcome) → (floats : Outcome) → Outcome
  by_numbers (some i1) (some i2) ints floats = ints i1 i2
  by_numbers _ _ ints floats = floats

  unfoldable pub add_sub_mult_div : (syntax_check : Bool) → Operator → (arg1 arg2 : Text) → Outcome
  add_sub_mult_div true type arg1 arg2 = result (b'0' ∷ [])
  add_sub_mult_div false type arg1 arg2 =
      by_numbers (isint arg1) (isint arg2) (int_math type)
        (float_math type (c.scan_float arg1) (c.scan_float arg2))

  abbrev pub is_true : ℤ → Bool
  is_true i = not (eq_ℤ i (pos 0))

  -- Here i1 is the number of arg2.
  unfoldable pub int_logic : Operator → (i1 i2 : ℤ) → Outcome
  int_logic logical_and i1 i2 = result (digit (is_true i1 && is_true i2))
  int_logic logical_or i1 i2 = result (digit (is_true i1 || is_true i2))
  int_logic bitwise_and i1 i2 = result (c.print_int (of_bits (bit_and (int_bits i1) (int_bits i2))))
  int_logic bitwise_or i1 i2 = result (c.print_int (of_bits (bit_or (int_bits i1) (int_bits i2))))
  int_logic bitwise_xor i1 i2 = result (c.print_int (of_bits (bit_xor (int_bits i1) (int_bits i2))))
  int_logic less_than i1 i2 = result (digit (ltb_ℤ i1 i2))
  int_logic greater_than i1 i2 = result (digit (ltb_ℤ i2 i1))
  int_logic equal i1 i2 = result (digit (eq_ℤ i1 i2))
  int_logic not_equal i1 i2 = result (digit (not (eq_ℤ i1 i2)))
  int_logic greater_than_equal i1 i2 = result (digit (not (ltb_ℤ i1 i2)))
  int_logic less_than_equal i1 i2 = result (digit (not (ltb_ℤ i2 i1)))
  int_logic _ i1 i2 = result []

  unfoldable pub float_logic : Operator → (f1 f2 : F) → Outcome
  float_logic logical_and f1 f2 =
      result (c.print_float (c.of_bool (not (c.is_zero f1) && not (c.is_zero f2))))
  float_logic logical_or f1 f2 =
      result (c.print_float (c.of_bool (not (c.is_zero f1) || not (c.is_zero f2))))
  float_logic bitwise_and f1 f2 = error
  float_logic bitwise_or f1 f2 = error
  float_logic bitwise_xor f1 f2 = error
  float_logic less_than f1 f2 = result (digit (c.lt f1 f2))
  float_logic greater_than f1 f2 = result (digit (c.lt f2 f1))
  float_logic equal f1 f2 = result (digit (c.eq f1 f2))
  float_logic not_equal f1 f2 = result (digit (not (c.eq f1 f2)))
  float_logic greater_than_equal f1 f2 = result (digit (c.le f2 f1))
  float_logic less_than_equal f1 f2 = result (digit (c.le f1 f2))
  float_logic _ f1 f2 = result []

  unfoldable pub logical_bitwise : (syntax_check : Bool) → Operator → (arg1 arg2 : Text) → Outcome
  logical_bitwise true type arg1 arg2 = result (b'0' ∷ [])
  logical_bitwise false type arg1 arg2 =
      by_numbers (isint arg2) (isint arg1) (int_logic type)
        (float_logic type (c.scan_float arg2) (c.scan_float arg1))

  abbrev pub complement_of : Option ℤ → Outcome
  complement_of none = error
  complement_of (some i) = result (c.print_int (of_bits (2 ^ 32 - 1 - int_bits i)))

  unfoldable pub ones_complement : Text → Outcome
  ones_complement p = complement_of (isint p)

  abbrev pub text_of : Outcome → Option Text
  text_of (result t) = some t
  text_of error = none
  text_of undefined = none

  -- The branch of solve() on the type of the operator.
  unfoldable pub number_op : (syntax_check : Bool) → Operator → (arg1 arg2 : Text) → Outcome
  number_op check plus a b = add_sub_mult_div check plus a b
  number_op check minus a b = add_sub_mult_div check minus a b
  number_op check mult a b = add_sub_mult_div check mult a b
  number_op check divide a b = add_sub_mult_div check divide a b
  number_op check type a b = logical_bitwise check type a b

  -- What solve() takes.
  unfoldable pub numeric : (syntax_check : Bool) → Numeric
  numeric check = record {
    binary = λ o a b. text_of (number_op check o a b);
    complement = λ a. text_of (ones_complement a);
  }
