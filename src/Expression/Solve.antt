-- ===== src/Expression/Solve.antt =====
-- solve() of source/expression.c, with concat(), str_cmp() and expression() itself.
use sc_open.Prelude.{
  ℕ, zero, suc, Bool, true, false, ◌&&◌, Option, none, some, List, [], ◌∷◌, ◌++◌, ◌==◌,
  if◌then◌else◌,
}
use sc_open.Expression.{
  Operator, plus, minus, mult, divide, period, colon, logical_and, logical_or, bitwise_and,
  bitwise_or, bitwise_xor, less_than, greater_than, equal, not_equal, less_than_equal,
  greater_than_equal, str_equal, str_not_equal, Unary, unary_minus, unary_plus, ones_complement,
  Kind, tt_null, tt_open_paren, tt_close_paren, tt_comma, tt_function, tt_named, tt_op, tt_unary,
  Text, Token, Queue, dq_token, Ret, ok, failed, fatal, no_fuel, expr,
}

-- add_sub_mult_div(), logical_bitwise() and ones_complement(), which work on numbers through
-- sscanf() and sprintf(): the operator, `arg1` and `arg2`. `none` is their error return,
-- or a run to which C gives no meaning.
pub record Numeric : Type 0 where
  pub binary : Operator → Text → Text → Option Text
  pub complement : Text → Option Text

abbrev same_text : Text → Text → Bool
same_text [] [] = true
same_text [] (y ∷ ys) = false
same_text (x ∷ xs) [] = false
same_text (x ∷ xs) (y ∷ ys) = x == y && same_text xs ys

-- str_cmp(), on texts without a NUL.
unfoldable pub str_cmp : (equals : Bool) → Text → Text → Text
str_cmp true arg1 arg2 = if same_text arg2 arg1 then 0x31 ∷ [] else 0x30 ∷ []
str_cmp false arg1 arg2 = if same_text arg2 arg1 then 0x30 ∷ [] else 0x31 ∷ []

-- concat()
unfoldable pub concat : Text → Text → (delimiter : Text) → Text
concat arg1 arg2 delimiter = (arg2 ++ delimiter) ++ arg1

-- The branches on the type of a binary operator.
unfoldable pub binary_op : Numeric → Operator → (arg1 arg2 : Text) → Option Text
binary_op num period a b = some (concat a b [])
binary_op num colon a b = some (concat a b (0x20 ∷ []))
binary_op num str_equal a b = some (str_cmp true a b)
binary_op num str_not_equal a b = some (str_cmp false a b)
binary_op num plus a b = num.binary plus a b
binary_op num minus a b = num.binary minus a b
binary_op num mult a b = num.binary mult a b
binary_op num divide a b = num.binary divide a b
binary_op num logical_and a b = num.binary logical_and a b
binary_op num logical_or a b = num.binary logical_or a b
binary_op num bitwise_and a b = num.binary bitwise_and a b
binary_op num bitwise_or a b = num.binary bitwise_or a b
binary_op num bitwise_xor a b = num.binary bitwise_xor a b
binary_op num less_than a b = num.binary less_than a b
binary_op num greater_than a b = num.binary greater_than a b
binary_op num equal a b = num.binary equal a b
binary_op num not_equal a b = num.binary not_equal a b
binary_op num less_than_equal a b = num.binary less_than_equal a b
binary_op num greater_than_equal a b = num.binary greater_than_equal a b

-- A unary operator; the minus multiplies by "-1".
unfoldable pub unary_op : Numeric → Unary → Text → Option Text
unary_op num unary_minus a = num.binary mult a (0x2D ∷ 0x31 ∷ [])
unary_op num unary_plus a = some a
unary_op num ones_complement a = num.complement a

-- The return code, the caller's buffer `token` and the queue at a return of solve().
pub record Solved : Type 0 where
  pub code : ℕ
  pub token : Text
  pub queue : Queue

-- A call of solve() or of solve_function(); `none` is a call that is out of fuel.
abbrev pub Call : Type 0
Call = Text → Queue → Option Solved

-- An argument that is ready, or the return that its call has forced.
pub data Argument : Type 0 where
  ready : Token → Text → Queue → Argument
  stop : Solved → Argument

abbrev pub after_call : Solved → Argument
after_call r = let d = dq_token r.queue in if r.code == 0 then ready d.0 r.token d.1 else stop r

abbrev pub call_argument : Option Solved → Option Argument
call_argument none = none
call_argument (some r) = some (after_call r)

abbrev pub done : ℕ → Text → Queue → Option Solved
done code token queue = some (record { code = code; token = token; queue = queue })

abbrev pub with_argument : Option Argument → (Token → Call) → Option Solved
with_argument none f = none
with_argument (some (ready a t q)) f = f a t q
with_argument (some (stop r)) f = some r

-- A value, or a return with the code 1; the buffer `token` has been written by neither.
abbrev pub with_text : Option Text → Text → Queue → (Text → Option Solved) → Option Solved
with_text none t q f = done 1 t q
with_text (some v) t q f = f v

-- `rec` is the call of solve() by itself and the next round of the loop, `call` is solve_function().
module _ (num : Numeric) (rec call : Call) where
  unfoldable pub close_argument : Kind → Token → Text → Queue → Option Argument
  close_argument tt_close_paren a t q = call_argument (rec t q)
  close_argument _ a t q = some (ready a t q)

  unfoldable pub function_argument : Kind → Token → Text → Queue → Option Argument
  function_argument tt_function a t q = call_argument (call t q)
  function_argument _ a t q = some (ready a t q)

  -- The first token of a round: one of the two calls.
  unfoldable pub first_argument : Kind → Token → Text → Queue → Option Argument
  first_argument tt_close_paren a t q = call_argument (rec t q)
  first_argument tt_function a t q = call_argument (call t q)
  first_argument _ a t q = some (ready a t q)

  -- The end of a round with a binary operator: the result goes on the queue under the type of the
  -- first argument.
  unfoldable pub finish : Kind → (arg1 arg2 : Token) → Call
  finish (tt_op o) a b t q =
      with_text (binary_op num o a.text b.text) t q (λ v. rec v (record a { text = v } ∷ q))
  finish _ a b t q = done 1 t q

  -- The check for a unary operator in front of the second argument, which applies the first one
  -- found and puts anything else back.
  unfoldable pub check_unary : Kind → (op arg1 arg2 : Token) → Token → Call
  check_unary (tt_unary unary_minus) op a b u t q =
      with_text (unary_op num unary_minus b.text) t q
        (λ v. finish op.kind a (record b { text = v }) v q)
  check_unary (tt_unary ones_complement) op a b u t q =
      with_text (unary_op num ones_complement b.text) t q
        (λ v. finish op.kind a (record b { text = v }) t q)
  check_unary (tt_unary unary_plus) op a b u t q = finish op.kind a b t q
  check_unary _ op a b u t q = finish op.kind a b t (u ∷ q)

  unfoldable pub second_argument : Kind → (op arg1 arg2 : Token) → Call
  second_argument tt_null op a b t q = rec t q
  second_argument k op a b t q = with_argument (function_argument k b t q) (λ c t2 q2.
      with_argument (close_argument c.kind c t2 q2)
        (λ d t3 q3. let u = dq_token q3 in check_unary u.0.kind op a d u.0 t3 u.1))

  -- The operator of a round.
  unfoldable pub operator : Kind → (op arg1 : Token) → Call
  operator tt_null op a t q = rec a.text q
  operator tt_open_paren op a t q = done 0 t (a ∷ q)
  operator tt_comma op a t q = done 0 t (a ∷ op ∷ q)
  operator (tt_named f) op a t q = done 0 t (a ∷ op ∷ q)
  operator (tt_unary unary_minus) op a t q =
      with_text (unary_op num unary_minus a.text) t q (λ v. rec v (record a { text = v } ∷ q))
  operator (tt_unary ones_complement) op a t q =
      with_text (unary_op num ones_complement a.text) t q (λ v. rec t (record a { text = v } ∷ q))
  operator (tt_unary unary_plus) op a t q = rec t (a ∷ q)
  operator _ op a t q = let b = dq_token q in second_argument b.0.kind op a b.0 t b.1

  -- A round of the loop of solve(), which ends when the queue is empty.
  unfoldable pub round : Call
  round t [] = done 0 t []
  round t (a ∷ q) =
      with_argument (first_argument a.kind a t q)
        (λ c t2 q2. let op = dq_token q2 in operator op.0.kind op.0 c t2 op.1)

-- The fuel bounds the rounds and the nested calls; every round takes a token off the queue for good.
unfoldable pub solve : Numeric → (call : Call) → (fuel : ℕ) → Call
solve num call zero t q = none
solve num call (suc fuel) t q = round num (solve num call fuel) call t q

abbrev finished : List Token → Option Solved → Option ((ℕ × Text) × List Token)
finished tokens none = none
finished tokens (some s) = some ((s.code, s.token), tokens)

abbrev parsed : Ret → List Token → Option Solved → Option ((ℕ × Text) × List Token)
parsed ok tokens result = finished tokens result
parsed failed tokens result = some ((1, []), tokens)
parsed fatal tokens result = none
parsed no_fuel tokens result = none

-- expression(): the return code with the value in `token` and the tokens that are left. `none` is
-- the FATAL exit on a full queue. The text that the parser leaves in `token` does not matter to
-- solve() where its queue is not empty.
unfoldable pub expression :
    Numeric → (call : Call) → (fuel : ℕ) → List Token → Option ((ℕ × Text) × List Token)
expression num call fuel tokens =
    let r = expr fuel (record { tokens = tokens; queue = [] }) in
    parsed r.0 r.1.tokens (solve num call fuel [] r.1.queue)
