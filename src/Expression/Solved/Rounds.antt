-- ===== src/Expression/Solved/Rounds.antt =====
-- The rounds of solve() on the tokens of an expression.
use sc_open.Prelude.{ℕ, zero, suc, ◌+◌, ◌≤◌, ◌≡◌, refl, ◌∙◌, some, [], ◌∷◌, arith}
use sc_open.Expression.{
  Operator, Unary, unary_minus, unary_plus, ones_complement, Kind, tt_null, tt_value, tt_open_paren,
  tt_close_paren, tt_comma, tt_function, tt_other, tt_named, tt_op, tt_unary, Text, Token,
  null_token, Queue, dq_token,
}
use sc_open.Expression.Solve.{
  Numeric, Solved, Call, unary_op, binary_op, first_argument, finish, check_unary, operator, round,
  solve,
}
use sc_open.Expression.Grammar.{value_token, bare}

abbrev pub solved : Text → Queue → Solved
solved t q = record { code = 0; token = t; queue = q }

-- What lies below an expression on the queue.
abbrev pub NotUnary : Queue → Type 0
NotUnary [] = Unit
NotUnary (t ∷ q) = (u : Unary) → ¬ (t.kind ≡ tt_unary u)

-- The token behind the second argument is put back, also when there is none.
abbrev pub put_back : Queue → Queue
put_back [] = null_token ∷ []
put_back (t ∷ q) = t ∷ q

module _ (num : Numeric) (call : Call) where
  -- With enough fuel solve() returns r.
  abbrev pub Returns : Text → Queue → Solved → Type 0
  Returns t q r = (k : ℕ) × ((m : ℕ) → k ≤ m → solve num call m t q ≡ some r)

  -- One queue comes to the same as another.
  abbrev pub Leads : Text → Queue → Queue → Type 0
  Leads t q q2 = (t2 : Text) × ((r : Solved) → Returns t2 q2 r → Returns t q r)

  pub Leads-refl : (t : Text) (q : Queue) → Leads t q q
  Leads-refl t q = (t, λ r w. w)

  pub Leads-trans :
      (t : Text) (q q2 q3 : Queue) → Leads t q q2 → ((t2 : Text) → Leads t2 q2 q3) → Leads t q q3
  Leads-trans t q q2 q3 a b = let c = b a.0 in (c.0, λ r w. a.1 r (c.1 r w))

  -- A round, and a round that begins with a nested call.
  pub round-Leads :
      (k : ℕ) (t t2 : Text) (q q2 : Queue)
      → ((m : ℕ) → k ≤ m → solve num call (suc m) t q ≡ solve num call m t2 q2)
      → Leads t q q2
  round-Leads k t t2 q q2 h = (t2, λ r w. (suc (k + w.0), go r w))
    where
      go :
          (r : Solved) (w : Returns t2 q2 r) (m : ℕ)
          → suc (k + w.0) ≤ m
          → solve num call m t q ≡ some r
      go r w zero le = absurd (omega arith)
      go r w (suc m) le = h m (omega arith) ∙ w.1 m (omega arith)

  pub nested-Leads :
      (k : ℕ) (t t2 : Text) (q q2 : Queue)
      → ((m : ℕ) → k ≤ m → solve num call (suc m) t q ≡ solve num call (suc m) t2 q2)
      → Leads t q q2
  nested-Leads k t t2 q q2 h = (t2, λ r w. (suc (k + w.0), go r w))
    where
      go :
          (r : Solved) (w : Returns t2 q2 r) (m : ℕ)
          → suc (k + w.0) ≤ m
          → solve num call m t q ≡ some r
      go r w zero le = absurd (omega arith)
      go r w (suc m) le = h m (omega arith) ∙ w.1 (suc m) (omega arith)

  -- In front of an opening parenthesis solve() returns to the call that has met the closing one.
  pub open-Returns :
      (v t : Text) (q : Queue)
      → Returns t (value_token v ∷ bare tt_open_paren ∷ q) (solved t (value_token v ∷ q))
  unfolding solve round first_argument operator dq_token
  open-Returns v t q = (1, go)
    where
      go :
          (m : ℕ)
          → 1 ≤ m
          → solve num call m t (value_token v ∷ bare tt_open_paren ∷ q)
            ≡ some (solved t (value_token v ∷ q))
      go zero h = absurd (omega arith)
      go (suc m) h = refl

  -- A sign in front of a value.
  pub sign-Leads :
      (u : Unary) (v x t : Text) (q : Queue)
      → unary_op num u v ≡ some x
      → Leads t (value_token v ∷ bare (tt_unary u) ∷ q) (value_token x ∷ q)
  unfolding solve round first_argument operator dq_token
  sign-Leads unary_minus v x t q e = round-Leads 0 t x _ _ (λ m h. rw e refl)
  sign-Leads ones_complement v x t q e = round-Leads 0 t t _ _ (λ m h. rw e refl)
  sign-Leads unary_plus v x t q e =
      let same : v ≡ x = unfold unary_op in cc in round-Leads 0 t t _ _ (λ m h. rw same refl)

  -- The check for a sign behind the second argument puts back a token that is none.
  check_unary-put_back :
      (rec : Call) (k : Kind) (op a b u : Token) (t : Text) (q : Queue)
      → ((w : Unary) → ¬ (k ≡ tt_unary w))
      → check_unary num rec call k op a b u t q ≡ finish num rec call op.kind a b t (u ∷ q)
  unfolding check_unary
  check_unary-put_back rec tt_null op a b u t q h = refl
  check_unary-put_back rec tt_value op a b u t q h = refl
  check_unary-put_back rec tt_open_paren op a b u t q h = refl
  check_unary-put_back rec tt_close_paren op a b u t q h = refl
  check_unary-put_back rec tt_comma op a b u t q h = refl
  check_unary-put_back rec tt_function op a b u t q h = refl
  check_unary-put_back rec tt_other op a b u t q h = refl
  check_unary-put_back rec (tt_named f) op a b u t q h = refl
  check_unary-put_back rec (tt_op p) op a b u t q h = refl
  check_unary-put_back rec (tt_unary w) op a b u t q h = absurd (h w refl)

  finish-op :
      (rec : Call) (o : Operator) (a l x t : Text) (q : Queue)
      → binary_op num o a l ≡ some x
      → finish num rec call (tt_op o) (value_token a) (value_token l) t q
        ≡ rec x (value_token x ∷ q)
  unfolding finish
  finish-op rec o a l x t q e = rw e refl

  pub check_unary-none :
      (rec : Call) (o : Operator) (a l x t : Text) (q : Queue)
      → NotUnary q
      → binary_op num o a l ≡ some x
      → let u = dq_token q in
        check_unary num rec call u.0.kind (bare (tt_op o)) (value_token a) (value_token l) u.0 t u.1
        ≡ rec x (value_token x ∷ put_back q)
  unfolding check_unary finish dq_token
  check_unary-none rec o a l x t [] h e = rw e refl
  check_unary-none rec o a l x t (u ∷ q) h e =
      check_unary-put_back rec u.kind (bare (tt_op o)) (value_token a) (value_token l) u t q h
      ∙ finish-op rec o a l x t (u ∷ q) e

  -- A sign that is found belongs to the second argument.
  pub check_unary-sign :
      (rec : Call) (w : Unary) (o : Operator) (a l y x t : Text) (q : Queue)
      → unary_op num w l ≡ some y
      → binary_op num o a y ≡ some x
      → check_unary num rec call
          (tt_unary w)
          (bare (tt_op o))
          (value_token a)
          (value_token l)
          (bare (tt_unary w))
          t
          q
        ≡ rec x (value_token x ∷ q)
  unfolding check_unary finish
  check_unary-sign rec unary_minus o a l y x t q e f = rw (e, f) refl
  check_unary-sign rec ones_complement o a l y x t q e f = rw (e, f) refl
  check_unary-sign rec unary_plus o a l y x t q e f =
      let same : l ≡ y = unfold unary_op in cc in rw (same, f) refl
