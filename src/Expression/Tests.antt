-- ===== src/Expression/Tests.antt =====
-- Expressions at concrete inputs.
use sc_open.Prelude.{
  ◌+◌, ◌*◌, ◌≡◌, ℕ, suc, refl, inl, inr, true, false, Option, none, some, List, [], ◌∷◌, ◌++◌,
  length, replicate, ltb, leb, ◌==◌, if◌then◌else◌, arith,
}
use sc_open.Numbers.{ℤ, pos, negsuc}
use sc_open.Expression.Arithmetic.{Clib, isint, is_blank, add_sub_mult_div}
use sc_open.Expression.Arithmetic.Exact.{magnitude, Meets, add_sub_mult_div-Meets}
use sc_open.Expression.Functions.{
  Texts, Args, Applied, failure, itob_bits, call_function, solve_call,
}
use sc_open.Expression.Functions.Bits.{hex_value, binary_value, binary_value-itob_bits}
use sc_open.Expression.Functions.Arguments.{substr_tokens, expression-substr}
use sc_open.Expression.{Operator, plus, minus, mult, tt_op, tt_open_paren, Text, Token, expr}
use sc_open.Expression.Solve.{Numeric, Call, expression}
use sc_open.Expression.Grammar.{leaf, plain, Expr, last, chain, value_token, bare}
use sc_open.Expression.Ending.Branches.{Ends}
use sc_open.Expression.Ending.{expr_terminates}

-- A stand-in for the numbers: a text stands for its length.
times : Text → Text → Text
times [] b = []
times (x ∷ a) b = b ++ times a b

compute : Operator → Text → Text → Option Text
compute plus a b = some (b ++ a)
compute mult a b = some (times b a)
compute _ a b = none

abbrev lengths : Numeric
unfolding compute times
lengths = record { binary = compute; complement = λ a. none }

abbrev no_call : Call
no_call t q = none

-- 2 * 3 + 4, which comes to 2 * (3 + 4).
abbrev product_first : Expr
product_first =
    chain (plain (leaf (replicate 2 1))) mult
      (chain (plain (leaf (replicate 3 1))) plus (last (plain (leaf (replicate 4 1)))))

abbrev half_open : List Token
half_open = bare tt_open_paren ∷ value_token [] ∷ bare (tt_op plus) ∷ []

expr_terminates_example : Ends 3 (expr 8 (record { tokens = half_open; queue = [] }))
expr_terminates_example = expr_terminates half_open [] 8 (omega arith)

-- A text of n bytes stands for n, or for 1 - n where the first byte is a minus.
scan_marks : Text → Option (ℤ × Text)
scan_marks [] = some (pos 0, [])
scan_marks (c ∷ t) =
    if c == b'-' then some (negsuc (length t), []) else some (pos (suc (length t)), [])

-- The floats are natural numbers.
abbrev marks : Clib ℕ
marks = record {
  scan_int = scan_marks;
  print_int = λ k. replicate (magnitude k) b'x';
  scan_float = λ t. length t;
  print_float = λ n. replicate n b'y';
  of_bool = λ b. if b then 1 else 0;
  add = λ a b. a + b;
  sub = λ a b. a;
  mul = λ a b. a * b;
  div = λ a b. a;
  is_zero = λ a. a == 0;
  lt = ltb;
  le = leb;
  eq = λ a b. a == b;
}

add_sub_mult_div-Meets_example :
    Meets marks minus
      (pos 2)
      (negsuc 1)
      (add_sub_mult_div marks false minus (b'x' ∷ b'x' ∷ []) (b'-' ∷ b'x' ∷ []))
unfolding isint is_blank scan_marks
add_sub_mult_div-Meets_example =
    add_sub_mult_div-Meets marks minus (b'x' ∷ b'x' ∷ []) (b'-' ∷ b'x' ∷ []) (pos 2) (negsuc 1) refl
      refl refl

binary_value-itob_bits_example :
    (binary_value (itob_bits (b'A' ∷ b'7' ∷ [])) 0 ≡ hex_value (b'A' ∷ b'7' ∷ []) 0)
    × (length (itob_bits (b'A' ∷ b'7' ∷ [])) ≡ 4 * 2)
binary_value-itob_bits_example =
    binary_value-itob_bits (b'A' ∷ b'7' ∷ []) 0
      (inr (omega arith, omega arith), (inl (omega arith, omega arith), tt))

-- A number is the length of its text, and is printed so.
abbrev by_length : Texts
by_length = record {
  scan_u = λ t. length t;
  print_u = λ n. replicate n b'x';
  print_d = λ n. replicate n b'x';
  print_hex = λ format t. t;
  strtol = λ base t. (length t, true);
  strstr = λ a b. none;
  tolower = λ b. b;
  toupper = λ b. b;
}

abbrev no_function : ℕ → ℕ → Args → Applied
no_function type i_arg a = failure

-- The two bytes of "abcd" from the second on.
expression-substr_example :
    expression lengths
      (solve_call lengths (call_function by_length no_function false) 9)
      12
      (substr_tokens [] (b'a' ∷ b'b' ∷ b'c' ∷ b'd' ∷ []) (1 ∷ 1 ∷ []) (1 ∷ 1 ∷ []))
    ≡ some ((0, b'b' ∷ b'c' ∷ []), [])
expression-substr_example =
    expression-substr lengths by_length no_function [] (b'a' ∷ b'b' ∷ b'c' ∷ b'd' ∷ []) (1 ∷ 1 ∷ [])
      (1 ∷ 1 ∷ []) (omega arith) (omega arith) (omega arith)
