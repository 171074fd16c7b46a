-- ===== src/Expression/Grammar.antt =====
-- Expressions without function calls, how a program writes them, how the parser queues them, and
-- what they mean.
use sc_open.Prelude.{Option, none, some, List, [], ◌∷◌}
use sc_open.Expression.{
  Operator, minus, plus, Unary, unary_minus, unary_plus, ones_complement, Kind, tt_value,
  tt_open_paren, tt_close_paren, tt_op, tt_unary, Text, Token, Queue,
}
use sc_open.Expression.Solve.{Numeric, unary_op, binary_op}

mutual
  pub data Base : Type 0 where
    leaf : Text → Base
    paren : Expr → Base

  pub data Term : Type 0 where
    plain : Base → Term
    signed : Unary → Term → Term

  pub data Expr : Type 0 where
    last : Term → Expr
    chain : Term → Operator → Expr → Expr

abbrev pub value_token : Text → Token
value_token v = record { kind = tt_value; text = v }

abbrev pub bare : Kind → Token
bare k = record { kind = k; text = [] }

-- The type under which the tokeniser stores a unary operator.
abbrev pub sign : Unary → Kind
sign unary_minus = tt_op minus
sign unary_plus = tt_op plus
sign ones_complement = tt_unary ones_complement

-- The tokens of the program, in front of others.
unfoldable mutual
  pub write_base : Base → List Token → List Token
  write_base (leaf v) ts = value_token v ∷ ts
  write_base (paren e) ts = bare tt_open_paren ∷ write_expr e (bare tt_close_paren ∷ ts)

  pub write_term : Term → List Token → List Token
  write_term (plain b) ts = write_base b ts
  write_term (signed u t) ts = bare (sign u) ∷ write_term t ts

  pub write_expr : Expr → List Token → List Token
  write_expr (last t) ts = write_term t ts
  write_expr (chain t o e) ts = write_term t (bare (tt_op o) ∷ write_expr e ts)

-- The queue, its last token first, on top of another.
unfoldable mutual
  pub queue_base : Base → Queue → Queue
  queue_base (leaf v) q = value_token v ∷ q
  queue_base (paren e) q = bare tt_close_paren ∷ queue_expr e (bare tt_open_paren ∷ q)

  pub queue_term : Term → Queue → Queue
  queue_term (plain b) q = queue_base b q
  queue_term (signed u t) q = queue_term t (bare (tt_unary u) ∷ q)

  pub queue_expr : Expr → Queue → Queue
  queue_expr (last t) q = queue_term t q
  queue_expr (chain t o e) q = queue_expr e (bare (tt_op o) ∷ queue_term t q)

abbrev pub and_then : Option Text → (Text → Option Text) → Option Text
and_then none f = none
and_then (some v) f = f v

-- The meaning: every operator takes the whole rest of the expression as its right operand, whatever
-- the operators are. Of the signs in front of its left operand the innermost belongs to that
-- operand and the others to the result.
unfoldable mutual
  pub value_base : Numeric → Base → Option Text
  value_base num (leaf v) = some v
  value_base num (paren e) = value_expr num e

  pub value_term : Numeric → Term → Option Text
  value_term num (plain b) = value_base num b
  value_term num (signed u t) = and_then (value_term num t) (unary_op num u)

  pub value_chain : Numeric → Term → Operator → Text → Option Text
  value_chain num (plain b) o r = and_then (value_base num b) (binary_op num o r)
  value_chain num (signed u (plain b)) o r =
      and_then (value_base num b) (λ l. and_then (unary_op num u l) (binary_op num o r))
  value_chain num (signed u (signed w t)) o r =
      and_then (value_chain num (signed w t) o r) (unary_op num u)

  pub value_expr : Numeric → Expr → Option Text
  value_expr num (last t) = value_term num t
  value_expr num (chain t o e) = and_then (value_expr num e) (λ r. value_chain num t o r)
