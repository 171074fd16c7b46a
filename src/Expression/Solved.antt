-- ===== src/Expression/Solved.antt =====
-- What solve() makes of the queue of an expression.
pub mod Rounds
use sc_open.Prelude.{
  ℕ, zero, suc, ◌+◌, ◌≤◌, ◌≡◌, refl, sym, ap, ◌∙◌, Option, none, some, List, [], ◌∷◌, arith,
  Option-cases, inl, inr,
}
use sc_open.Expression.{
  Operator, Unary, unary_minus, unary_plus, ones_complement, Kind, tt_null, tt_value, tt_open_paren,
  tt_close_paren, tt_comma, tt_function, tt_other, tt_named, tt_op, tt_unary, Text, Token,
  null_token, Queue, dq_token,
}
use sc_open.Expression.Solve.{
  Numeric, Solved, Call, Argument, ready, stop, after_call, call_argument, done, with_argument,
  with_text, unary_op, binary_op, close_argument, function_argument, first_argument, finish,
  check_unary, second_argument, operator, round, solve,
}
use sc_open.Expression.Grammar.{
  Base, leaf, paren, Term, plain, signed, Expr, last, chain, value_token, bare, queue_base,
  queue_term, queue_expr, and_then, value_base, value_term, value_chain, value_expr,
}
use Rounds.{
  solved, NotUnary, put_back, Returns, Leads, Leads-refl, Leads-trans, round-Leads, nested-Leads,
  open-Returns, sign-Leads, check_unary-none, check_unary-sign,
}

module _ (num : Numeric) (call : Call) where
  -- What is left below the value of a chain and of an expression.
  abbrev under_chain : Term → Queue → Queue
  under_chain (plain b) q = put_back q
  under_chain (signed u t) q = q

  abbrev pub under : Expr → Queue → Queue
  under (last t) q = q
  under (chain t o e) q = under_chain t q

  under-cons : (e : Expr) (t : Token) (q : Queue) → under e (t ∷ q) ≡ t ∷ q
  under-cons (last x) t q = refl
  under-cons (chain (plain b) o e) t q = refl
  under-cons (chain (signed u x) o e) t q = refl

  and_then-eq-some :
      (o : Option Text) (f : Text → Option Text) (v : Text)
      → and_then o f ≡ some v
      → (w : Text) × (o ≡ some w) × (f w ≡ some v)
  and_then-eq-some none f v h = cc
  and_then-eq-some (some w) f v h = (w, refl, h)

  -- Inside of parentheses: the nested call of solve() returns the value.
  paren-Returns :
      (e : Expr) (l t : Text) (q : Queue)
      → Leads num call t
          (queue_expr e (bare tt_open_paren ∷ q))
          (value_token l ∷ under e (bare tt_open_paren ∷ q))
      → (t2 : Text) × Returns num call t
          (queue_expr e (bare tt_open_paren ∷ q))
          (solved t2 (value_token l ∷ q))
  paren-Returns e l t q inner = (
    inner.0,
    inner.1 (solved inner.0 (value_token l ∷ q))
        (rw (under-cons e (bare tt_open_paren) q) (open-Returns num call l inner.0 q)),
  )

  -- A round whose first two arguments are ready.
  abbrev Seconds : Text → Base → Text → Queue → Type 0
  Seconds t b l q =
      (k : ℕ) × (t2 : Text) × ((m : ℕ) (o : Operator) (a : Text)
        → k ≤ m
        → solve num call (suc m) t (value_token a ∷ bare (tt_op o) ∷ queue_base b q) ≡ (
            let u = dq_token q in
            check_unary num (solve num call m) call u.0.kind (bare (tt_op o)) (value_token a)
              (value_token l) u.0 t2 u.1))

  open_NotUnary : (u : Unary) → ¬ (tt_open_paren ≡ tt_unary u)
  open_NotUnary u p = cc

  op_NotUnary : (o : Operator) (u : Unary) → ¬ (tt_op o ≡ tt_unary u)
  op_NotUnary o u p = cc

  abbrev Below : Term → Queue → Type 0
  Below (plain b) q = NotUnary q
  Below (signed u t) q = Unit

  Below-NotUnary : (x : Term) (q : Queue) → NotUnary q → Below x q
  Below-NotUnary (plain b) q n = n
  Below-NotUnary (signed u t) q n = tt

  mutual
    unfolding queue_base queue_term queue_expr value_base value_term value_chain value_expr solve
        round first_argument function_argument close_argument second_argument operator dq_token

    base-Leads :
        (b : Base) (l t : Text) (q : Queue)
        → value_base num b ≡ some l
        → Leads num call t (queue_base b q) (value_token l ∷ q)
    base-Leads (leaf v) l t q e =
        let same : v ≡ l = cc in rw same (Leads-refl num call t (value_token l ∷ q))
    base-Leads (paren x) l t q e =
        let (t2, w) =
          paren-Returns x l t q (expr-Leads x l t (bare tt_open_paren ∷ q) open_NotUnary e) in
        nested-Leads num call w.0 t t2 _ _ (λ m h. rw (w.1 m h) refl)

    base_second : (b : Base) (l t : Text) (q : Queue) → value_base num b ≡ some l → Seconds t b l q
    base_second (leaf v) l t q e = let same : v ≡ l = cc in rw same (0, t, λ m o a h. refl)
    base_second (paren x) l t q e =
        let (t2, w) =
          paren-Returns x l t q (expr-Leads x l t (bare tt_open_paren ∷ q) open_NotUnary e) in
        (w.0, t2, λ m o a h. rw (w.1 m h) refl)

    term-Leads :
        (x : Term) (v t : Text) (q : Queue)
        → value_term num x ≡ some v
        → Leads num call t (queue_term x q) (value_token v ∷ q)
    term-Leads (plain b) v t q e = base-Leads b v t q e
    term-Leads (signed u y) v t q e =
        let (w, f, g) = and_then-eq-some (value_term num y) (unary_op num u) v e in
        Leads-trans num call t _ _ _ (term-Leads y w t (bare (tt_unary u) ∷ q) f)
          (λ t2. sign-Leads num call u w v t2 q g)

    chain-Leads :
        (x : Term) (o : Operator) (a v t : Text) (q : Queue)
        → Below x q
        → value_chain num x o a ≡ some v
        → Leads num call t
            (value_token a ∷ bare (tt_op o) ∷ queue_term x q)
            (value_token v ∷ under_chain x q)
    chain-Leads (plain b) o a v t q n e =
        let (l, f, g) = and_then-eq-some (value_base num b) (binary_op num o a) v e in
        let (k, t2, w) = base_second b l t q f in
        round-Leads num call k t v _ _
          (λ m h. w m o a h ∙ check_unary-none num call (solve num call m) o a l v t2 q n g)
    chain-Leads (signed u (plain b)) o a v t q n e =
        let (l, f, g) =
          and_then-eq-some (value_base num b) (λ l. and_then (unary_op num u l) (binary_op num o a))
            v e in
        let (y, f2, g2) = and_then-eq-some (unary_op num u l) (binary_op num o a) v g in
        let (k, t2, w) = base_second b l t (bare (tt_unary u) ∷ q) f in
        round-Leads num call k t v _ _
          (λ m h. w m o a h ∙ check_unary-sign num call (solve num call m) u o a l y v t2 q f2 g2)
    chain-Leads (signed u (signed z y)) o a v t q n e =
        let (w, f, g) = and_then-eq-some (value_chain num (signed z y) o a) (unary_op num u) v e in
        Leads-trans num call t _ _ _ (chain-Leads (signed z y) o a w t (bare (tt_unary u) ∷ q) tt f)
          (λ t2. sign-Leads num call u w v t2 q g)

    pub expr-Leads :
        (e : Expr) (v t : Text) (q : Queue)
        → NotUnary q
        → value_expr num e ≡ some v
        → Leads num call t (queue_expr e q) (value_token v ∷ under e q)
    expr-Leads (last x) v t q n e = term-Leads x v t q e
    expr-Leads (chain x o y) v t q n e =
        let (a, f, g) = and_then-eq-some (value_expr num y) (λ r. value_chain num x o r) v e in
        Leads-trans num call t _ _ _
          (rw (under-cons y (bare (tt_op o)) (queue_term x q)) at
            (expr-Leads y a t (bare (tt_op o) ∷ queue_term x q) (op_NotUnary o) f))
          (λ t2. chain-Leads x o a v t2 q (Below-NotUnary x q n) g)
