-- ===== src/Expression/Queued.antt =====
-- The parser puts the tokens of an expression on the queue.
use sc_open.Prelude.{ℕ, zero, suc, ◌+◌, ◌≤◌, ◌<◌, ◌≡◌, refl, false, List, [], ◌∷◌, length, arith}
use sc_open.Expression.{
  Operator, unary_minus, unary_plus, ones_complement, tt_open_paren, tt_close_paren, tt_op,
  tt_unary, Token, Queue, ok, State, Parser, get_program_token, q_token, is_operator, close_of,
  close_paren, term_of, term, expr, expr_loop, max_q,
}
use sc_open.Expression.Grammar.{
  Base, leaf, paren, Term, plain, signed, Expr, last, chain, value_token, bare, write_base,
  write_term, write_expr, queue_base, queue_term, queue_expr,
}

abbrev pub state : List Token → Queue → State
state ts q = record { tokens = ts; queue = q }

-- The number of tokens of an expression.
unfoldable mutual
  pub size_base : Base → ℕ
  size_base (leaf v) = 1
  size_base (paren e) = size_expr e + 2

  pub size_term : Term → ℕ
  size_term (plain b) = size_base b
  size_term (signed u t) = size_term t + 1

  pub size_expr : Expr → ℕ
  size_expr (last t) = size_term t
  size_expr (chain t o e) = size_term t + 1 + size_expr e

-- What follows an expression is not an operator.
abbrev pub Stops : List Token → Type 0
Stops [] = Unit
Stops (t ∷ ts) = is_operator t.kind ≡ false

-- With enough fuel the parser takes the tokens down to ts2 and leaves the queue q2.
abbrev pub Parses : (ℕ → Parser) → List Token → Queue → List Token → Queue → Type 0
Parses f ts q ts2 q2 = (k : ℕ) × ((m : ℕ) → k ≤ m → f m (state ts q) ≡ (ok, state ts2 q2))

-- A parser that needs fuel for one call more.
one_more :
    (f : ℕ → Parser) (k : ℕ) (ts ts2 : List Token) (q q2 : Queue)
    → ((m : ℕ) → k ≤ m → f (suc m) (state ts q) ≡ (ok, state ts2 q2))
    → Parses f ts q ts2 q2
one_more f k ts ts2 q q2 h = (suc k, go)
  where
    go : (m : ℕ) → suc k ≤ m → f m (state ts q) ≡ (ok, state ts2 q2)
    go zero le = absurd (omega arith)
    go (suc m) le = h m (omega arith)

q_token-fits :
    (t : Token) (ts : List Token) (q : Queue)
    → length q < max_q
    → q_token t (state ts q) ≡ (ok, state ts (t ∷ q))
unfolding q_token
q_token-fits t ts q h = ground arith

mutual
  unfolding size_base size_term size_expr queue_base queue_term queue_expr

  length-queue_base : (b : Base) (q : Queue) → length (queue_base b q) ≡ size_base b + length q
  length-queue_base (leaf v) q = omega arith
  length-queue_base (paren e) q = omega (arith, length-queue_expr e (bare tt_open_paren ∷ q))

  length-queue_term : (t : Term) (q : Queue) → length (queue_term t q) ≡ size_term t + length q
  length-queue_term (plain b) q = length-queue_base b q
  length-queue_term (signed u t) q = omega (arith, length-queue_term t (bare (tt_unary u) ∷ q))

  length-queue_expr : (e : Expr) (q : Queue) → length (queue_expr e q) ≡ size_expr e + length q
  length-queue_expr (last t) q = length-queue_term t q
  length-queue_expr (chain t o e) q =
      omega (arith, length-queue_expr e (bare (tt_op o) ∷ queue_term t q), length-queue_term t q)

loop-Stops : (ts : List Token) (q : Queue) → Stops ts → Parses expr_loop ts q ts q
unfolding expr_loop get_program_token
loop-Stops [] q s = one_more expr_loop 0 [] [] q q (λ m h. refl)
loop-Stops (t ∷ ts) q s = one_more expr_loop 0 _ _ q q (λ m h. rw s refl)

mutual
  unfolding size_base size_term size_expr queue_base queue_term queue_expr write_base write_term
      write_expr term expr expr_loop term_of close_of close_paren get_program_token

  term-Parses :
      (x : Term) (ts : List Token) (q : Queue)
      → size_term x + length q ≤ max_q
      → Parses term (write_term x ts) q ts (queue_term x q)
  term-Parses (plain (leaf v)) ts q h =
      one_more term 0 _ _ q _ (λ m le. q_token-fits (value_token v) ts q (omega arith))
  term-Parses (plain (paren e)) ts q h =
      let (k, w) =
        expr-Parses e (bare tt_close_paren ∷ ts) (bare tt_open_paren ∷ q) refl (omega arith) in
      one_more term k _ _ q _ (λ m le.
        rw
          (
            q_token-fits (bare tt_open_paren) (write_expr e (bare tt_close_paren ∷ ts)) q
                (omega arith),
            w m le,
          )
          (q_token-fits (bare tt_close_paren) ts (queue_expr e (bare tt_open_paren ∷ q))
            (omega (arith, length-queue_expr e (bare tt_open_paren ∷ q)))))
  term-Parses (signed unary_minus y) ts q h =
      let (k, w) = term-Parses y ts (bare (tt_unary unary_minus) ∷ q) (omega arith) in
      one_more term k _ _ q _ (λ m le.
        rw (q_token-fits (bare (tt_unary unary_minus)) (write_term y ts) q (omega arith), w m le)
          refl)
  term-Parses (signed unary_plus y) ts q h =
      let (k, w) = term-Parses y ts (bare (tt_unary unary_plus) ∷ q) (omega arith) in
      one_more term k _ _ q _ (λ m le.
        rw (q_token-fits (bare (tt_unary unary_plus)) (write_term y ts) q (omega arith), w m le)
          refl)
  term-Parses (signed ones_complement y) ts q h =
      let (k, w) = term-Parses y ts (bare (tt_unary ones_complement) ∷ q) (omega arith) in
      one_more term k _ _ q _ (λ m le.
        rw
          (q_token-fits (bare (tt_unary ones_complement)) (write_term y ts) q (omega arith), w m le)
          refl)

  -- The loop of expr() in front of an operator.
  loop-Parses :
      (o : Operator) (e : Expr) (ts : List Token) (q : Queue)
      → Stops ts
      → size_expr e + 1 + length q ≤ max_q
      → Parses expr_loop (bare (tt_op o) ∷ write_expr e ts) q ts (queue_expr e (bare (tt_op o) ∷ q))
  loop-Parses o (last x) ts q s h =
      let (k, w) = term-Parses x ts (bare (tt_op o) ∷ q) (omega arith) in
      let (k2, w2) = loop-Stops ts (queue_term x (bare (tt_op o) ∷ q)) s in
      one_more expr_loop (k + k2) _ _ q _ (λ m le.
        rw
          (
            q_token-fits (bare (tt_op o)) (write_term x ts) q (omega arith),
            w m (omega arith),
            w2 m (omega arith),
          )
          refl)
  loop-Parses o (chain x p y) ts q s h =
      let rest : List Token = bare (tt_op p) ∷ write_expr y ts in
      let (k, w) = term-Parses x rest (bare (tt_op o) ∷ q) (omega arith) in
      let (k2, w2) =
        loop-Parses p y ts (queue_term x (bare (tt_op o) ∷ q)) s
          (omega (arith, length-queue_term x (bare (tt_op o) ∷ q))) in
      one_more expr_loop (k + k2) _ _ q _ (λ m le.
        rw
          (
            q_token-fits (bare (tt_op o)) (write_term x rest) q (omega arith),
            w m (omega arith),
            w2 m (omega arith),
          )
          refl)

  -- expr() takes the tokens of an expression up to what is not an operator.
  pub expr-Parses :
      (e : Expr) (ts : List Token) (q : Queue)
      → Stops ts
      → size_expr e + length q ≤ max_q
      → Parses expr (write_expr e ts) q ts (queue_expr e q)
  expr-Parses (last x) ts q s h =
      let (k, w) = term-Parses x ts q h in
      let (k2, w2) = loop-Stops ts (queue_term x q) s in
      one_more expr (k + k2) _ _ q _ (λ m le. rw (w m (omega arith), w2 m (omega arith)) refl)
  expr-Parses (chain x o y) ts q s h =
      let (k, w) = term-Parses x (bare (tt_op o) ∷ write_expr y ts) q (omega arith) in
      let (k2, w2) = loop-Parses o y ts (queue_term x q) s (omega (arith, length-queue_term x q)) in
      one_more expr (k + k2) _ _ q _ (λ m le. rw (w m (omega arith), w2 m (omega arith)) refl)
