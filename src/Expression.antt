-- ===== src/Expression.antt =====
-- source/expression.c: expression(), which queues the tokens of an expression and then solves the
-- queue from its end. The tokens are those of the program, variables evaluated already.
pub mod Solve
pub mod Arithmetic
pub mod Functions
pub mod Grammar
pub mod Queued
pub mod Solved
pub mod Whole
pub mod Ending
mod Tests
use sc_open.Prelude.{
  ℕ, zero, suc, ◌+◌, Bool, true, false, Option, none, some, List, [], ◌∷◌, ◌++◌, length, ltb, ◌==◌,
  if◌then◌else◌,
}

pub data Operator : Type 0 where
  plus minus mult divide period colon : Operator
  logical_and logical_or bitwise_and bitwise_or bitwise_xor : Operator
  less_than greater_than equal not_equal less_than_equal greater_than_equal : Operator
  str_equal str_not_equal : Operator

pub data Unary : Type 0 where
  unary_minus unary_plus ones_complement : Unary

-- The types of the tokens as far as the source tells them apart; tt_value stands for a variable, an
-- identifier, a string, a constant and a number, which are treated alike.
pub data Kind : Type 0 where
  tt_null tt_value tt_open_paren tt_close_paren tt_comma tt_function tt_other : Kind
  tt_named : ℕ → Kind
  tt_op : Operator → Kind
  tt_unary : Unary → Kind

abbrev pub Text : Type 0
Text = List ℕ

pub record Token : Type 0 where
  pub kind : Kind
  pub text : Text

abbrev pub null_token : Token
null_token = record { kind = tt_null; text = [] }

-- The queue, its last token first: q_token() and dq_token() work at that end.
abbrev pub Queue : Type 0
Queue = List Token

abbrev pub max_q : ℕ
max_q = 500

-- dq_token()
unfoldable pub dq_token : Queue → Token × Queue
dq_token [] = (null_token, [])
dq_token (t ∷ q) = (t, q)

-- How a function of the parser ends: with 0, with another return code, with the FATAL exit of
-- q_token(), or out of fuel.
pub data Ret : Type 0 where
  ok failed fatal no_fuel : Ret

-- The tokens of the program that are still to be read, and the queue.
pub record State : Type 0 where
  pub tokens : List Token
  pub queue : Queue

abbrev pub Parser : Type 0
Parser = State → Ret × State

infixl 5 ◌then_do◌
abbrev pub ◌then_do◌ : Ret × State → Parser → Ret × State
(ok, p) then_do f = f p
(failed, p) then_do f = (failed, p)
(fatal, p) then_do f = (fatal, p)
(no_fuel, p) then_do f = (no_fuel, p)

-- get_program_token(); a later put_program_token() goes back to the state before.
unfoldable pub get_program_token : State → Token × State
get_program_token p = elim p.tokens [
  | [] ↦ (null_token, p)
  | t ∷ ts ↦ (t, record p { tokens = ts })
]

unfoldable pub q_token : Token → Parser
q_token t p =
    if ltb (length p.queue) max_q then (ok, record p { queue = t ∷ p.queue }) else (fatal, p)

abbrev pub is_operator : Kind → Bool
is_operator (tt_op o) = true
is_operator (tt_unary u) = true
is_operator tt_null = false
is_operator tt_value = false
is_operator tt_open_paren = false
is_operator tt_close_paren = false
is_operator tt_comma = false
is_operator tt_function = false
is_operator tt_other = false
is_operator (tt_named f) = false

-- The call of term() behind a unary operator, whose return code is not looked at.
abbrev pub ignored : Ret × State → Ret × State
ignored (failed, p) = (ok, p)
ignored (ok, p) = (ok, p)
ignored (fatal, p) = (fatal, p)
ignored (no_fuel, p) = (no_fuel, p)

unfoldable pub close_of : Kind → Token → Parser
close_of tt_close_paren t p = q_token t p
close_of _ t p = (failed, p)

unfoldable pub close_paren : Parser
close_paren p = let t = get_program_token p in close_of t.0.kind t.0 t.1

-- term() with the token that it has read; the parsers are those of its calls.
unfoldable pub term_of : (inner sub call : Parser) → Kind → Token → Parser
term_of inner sub call (tt_named f) t p = q_token t p then_do call
term_of inner sub call tt_value t p = q_token t p
term_of inner sub call (tt_op minus) t p =
    q_token (record t { kind = tt_unary unary_minus }) p then_do λ s. ignored (inner s)
term_of inner sub call (tt_op plus) t p =
    q_token (record t { kind = tt_unary unary_plus }) p then_do λ s. ignored (inner s)
term_of inner sub call (tt_unary ones_complement) t p = q_token t p then_do λ s. ignored (inner s)
term_of inner sub call tt_open_paren t p = q_token t p then_do sub then_do close_paren
term_of inner sub call _ t p = (failed, p)

-- The tokens that stand in the argument list of a function, and func() in front of it.
unfoldable pub args_of : (sub more : Parser) → Kind → Token → Parser
args_of sub more tt_close_paren t p = q_token (record t { kind = tt_function }) p
args_of sub more tt_comma t p = q_token t p then_do sub then_do more
args_of sub more _ t p = (failed, p)

-- The token behind the opening parenthesis; `before` is the state in front of it.
unfoldable pub func_args : (sub more : Parser) → Kind → Token → (before : State) → Parser
func_args sub more tt_close_paren t before p = q_token (record t { kind = tt_function }) p
func_args sub more _ t before p = sub before then_do more

unfoldable pub func_of : (sub more : Parser) → Kind → Parser
func_of sub more tt_open_paren p =
    let t = get_program_token p in func_args sub more t.0.kind t.0 p t.1
func_of sub more _ p = (failed, p)

-- term(), expr() with the loop over its operators, and func() with the loop over its arguments.
-- Every call takes a token or is the last of its kind, so that a fuel of some calls for each token
-- is enough.
unfoldable mutual
  pub term : ℕ → Parser
  term zero p = (no_fuel, p)
  term (suc fuel) p =
      let t = get_program_token p in term_of (term fuel) (expr fuel) (func fuel) t.0.kind t.0 t.1

  pub expr : ℕ → Parser
  expr zero p = (no_fuel, p)
  expr (suc fuel) p = term fuel p then_do expr_loop fuel

  pub expr_loop : ℕ → Parser
  expr_loop zero p = (no_fuel, p)
  expr_loop (suc fuel) p =
      let t = get_program_token p in
      let more = q_token t.0 t.1 then_do term fuel then_do expr_loop fuel in
      if is_operator t.0.kind then more else (ok, p)

  pub func : ℕ → Parser
  func zero p = (no_fuel, p)
  func (suc fuel) p = let t = get_program_token p in func_of (expr fuel) (args fuel) t.0.kind t.1

  pub args : ℕ → Parser
  args zero p = (no_fuel, p)
  args (suc fuel) p =
      let t = get_program_token p in args_of (expr fuel) (args fuel) t.0.kind t.0 t.1
