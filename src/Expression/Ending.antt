-- ===== src/Expression/Ending.antt =====
-- The parser of expressions ends on any program.
pub mod Branches
use sc_open.Prelude.{
  ℕ, zero, suc, ◌+◌, ◌*◌, ◌≤◌, ◌<◌, ◌≡◌, ◌≢◌, refl, Bool, true, false, Bool-cases, inl, inr, List,
  [], ◌∷◌, length, ltb, if◌then◌else◌, arith,
}
use sc_open.Expression.{
  Operator, plus, minus, mult, divide, period, colon, logical_and, logical_or, bitwise_and,
  bitwise_or, bitwise_xor, less_than, greater_than, equal, not_equal, less_than_equal,
  greater_than_equal, str_equal, str_not_equal, Unary, unary_minus, unary_plus, ones_complement,
  Kind, tt_null, tt_value, tt_open_paren, tt_close_paren, tt_comma, tt_function, tt_other, tt_named,
  tt_op, tt_unary, Token, Queue, Ret, ok, failed, fatal, no_fuel, State, Parser, ◌then_do◌,
  get_program_token, q_token, is_operator, ignored, close_of, close_paren, term_of, args_of,
  func_args, func_of, term, expr, expr_loop, func, args,
}
use Branches.{Ends, EndsAll, then_do-Ends, q_token-Ends, term_of-Ends, args_of-Ends, func_of-Ends}

weaken : (i m : ℕ) (r : Ret × State) → i ≤ m → Ends i r → Ends m r
weaken i m (ok, p) le h = omega arith
weaken i m (failed, p) le h = omega arith
weaken i m (fatal, p) le h = tt
weaken i m (no_fuel, p) le h = h

abbrev EndsOn : ℕ → Parser → Type 0
EndsOn n f =
    (ts : List Token) (q : Queue) (m : ℕ)
    → length ts ≤ m
    → m ≤ n
    → Ends m (f (record { tokens = ts; queue = q }))

all : (n : ℕ) (f : Parser) → EndsOn n f → EndsAll n f
all n f h p m le bound = h p.tokens p.queue m le bound

mutual
  unfolding term expr expr_loop func args get_program_token term_of func_of args_of

  term-Ends : (n fuel : ℕ) → 2 * n + 1 ≤ fuel → EndsOn n (term fuel)
  term-Ends n zero f ts q m h le = absurd (omega arith)
  term-Ends n (suc fuel) f [] q m h le = h
  term-Ends zero (suc fuel) f (t ∷ ts) q m h le = absurd (omega arith)
  term-Ends (suc n) (suc fuel) f (t ∷ ts) q zero h le = absurd (omega arith)
  term-Ends (suc n) (suc fuel) f (t ∷ ts) q (suc m) h le = weaken m (suc m) _ (omega arith) (
      term_of-Ends (term fuel) (expr fuel) (func fuel) t.kind t n
        (all n (term fuel) (term-Ends n fuel (omega arith)))
        (all n (expr fuel) (expr-Ends n fuel (omega arith)))
        (all n (func fuel) (func-Ends n fuel (omega arith))) (record { tokens = ts; queue = q }) m
        (omega arith) (omega arith))

  expr-Ends : (n fuel : ℕ) → 2 * n + 2 ≤ fuel → EndsOn n (expr fuel)
  expr-Ends n zero f ts q m h le = absurd (omega arith)
  expr-Ends n (suc fuel) f ts q m h le =
      then_do-Ends n m (term fuel (record { tokens = ts; queue = q })) (expr_loop fuel)
        (term-Ends n fuel (omega arith) ts q m h le) le
        (all n (expr_loop fuel) (expr_loop-Ends n fuel (omega arith)))

  expr_loop-Ends : (n fuel : ℕ) → 2 * n + 1 ≤ fuel → EndsOn n (expr_loop fuel)
  expr_loop-Ends n zero f ts q m h le = absurd (omega arith)
  expr_loop-Ends n (suc fuel) f [] q m h le = h
  expr_loop-Ends zero (suc fuel) f (t ∷ ts) q m h le = absurd (omega arith)
  expr_loop-Ends (suc n) (suc fuel) f (t ∷ ts) q zero h le = absurd (omega arith)
  expr_loop-Ends (suc n) (suc fuel) f (t ∷ ts) q (suc m) h le =
      elim (Bool-cases (is_operator t.kind)) [
        | inr y ↦ rw y h
        | inl y ↦
            let p : State = record { tokens = ts; queue = q } in
            rw y (
              weaken m (suc m) _ (omega arith) (
                then_do-Ends n m (q_token t p then_do term fuel) (expr_loop fuel)
                  (then_do-Ends n m (q_token t p) (term fuel)
                    (q_token-Ends t n p m (omega arith) (omega arith)) (omega arith)
                    (all n (term fuel) (term-Ends n fuel (omega arith))))
                  (omega arith) (all n (expr_loop fuel) (expr_loop-Ends n fuel (omega arith)))))
      ]

  func-Ends : (n fuel : ℕ) → 2 * n + 2 ≤ fuel → EndsOn n (func fuel)
  func-Ends n zero f ts q m h le = absurd (omega arith)
  func-Ends n (suc fuel) f [] q m h le = h
  func-Ends zero (suc fuel) f (t ∷ ts) q m h le = absurd (omega arith)
  func-Ends (suc n) (suc fuel) f (t ∷ ts) q zero h le = absurd (omega arith)
  func-Ends (suc n) (suc fuel) f (t ∷ ts) q (suc m) h le = weaken m (suc m) _ (omega arith) (
      func_of-Ends (expr fuel) (args fuel) t.kind n
        (all n (expr fuel) (expr-Ends n fuel (omega arith)))
        (all n (args fuel) (args-Ends n fuel (omega arith))) (record { tokens = ts; queue = q }) m
        (omega arith) (omega arith))

  args-Ends : (n fuel : ℕ) → 2 * n + 1 ≤ fuel → EndsOn n (args fuel)
  args-Ends n zero f ts q m h le = absurd (omega arith)
  args-Ends n (suc fuel) f [] q m h le = h
  args-Ends zero (suc fuel) f (t ∷ ts) q m h le = absurd (omega arith)
  args-Ends (suc n) (suc fuel) f (t ∷ ts) q zero h le = absurd (omega arith)
  args-Ends (suc n) (suc fuel) f (t ∷ ts) q (suc m) h le = weaken m (suc m) _ (omega arith) (
      args_of-Ends (expr fuel) (args fuel) t.kind t n
        (all n (expr fuel) (expr-Ends n fuel (omega arith)))
        (all n (args fuel) (args-Ends n fuel (omega arith))) (record { tokens = ts; queue = q }) m
        (omega arith) (omega arith))

-- expr() ends on every program, well formed or not, with two calls for each token and two more as
-- fuel, and where it returns it leaves no more tokens than it has found.
pub expr_terminates :
    (ts : List Token) (q : Queue) (fuel : ℕ)
    → 2 * length ts + 2 ≤ fuel
    → Ends (length ts) (expr fuel (record { tokens = ts; queue = q }))
expr_terminates ts q fuel h =
    expr-Ends (length ts) fuel h ts q (length ts) (omega arith) (omega arith)
