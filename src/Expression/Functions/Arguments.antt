-- ===== src/Expression/Functions/Arguments.antt =====
-- A call of SUBSTR() from its tokens in the program to its value.
use sc_open.Prelude.{
  ℕ, ◌+◌, ◌-◌, ◌%◌, ◌^◌, ◌≤◌, ◌<◌, ◌≡◌, refl, sym, ap, ltb→lt, ◌∙◌, inl, inr, true, false, some,
  List, [], ◌∷◌, length, take, drop, take_all, length-drop, ltb, leb, ◌==◌, arith, Bool-cases,
}
use sc_open.Expression.{
  ok, dq_token, expr, expr_loop, term, func, args, get_program_token, q_token, term_of, args_of,
  func_args, func_of, close_of, close_paren, Queue, tt_function, tt_value, tt_open_paren,
  tt_close_paren, tt_comma, tt_named, Kind, Text, Token,
}
use sc_open.Expression.Solve.{Numeric, expression, solve, round, first_argument, operator}
use sc_open.Expression.Functions.{
  Texts, Args, Applied, value, substr, tt_substr, apply, call_function, solve_call, solve_function,
  arguments,
}

-- Within the text, SUBSTR() gives the y bytes from the x-th on, or those that are there.
pub substr-inside :
    (name text : Text) (x y : ℕ)
    → 0 < x
    → x ≤ length text
    → length text < 2 ^ 32
    → substr name text x y ≡ value (take y (drop (x - 1) text))
unfolding substr
substr-inside name text x y first inside small =
    let n : ℕ = length text - x in
    let left : (length text + (2 ^ 32 - x)) % 2 ^ 32 ≡ length text - x = omega arith in
    let one_more : (length text - x + 1) % 2 ^ 32 ≡ length text - x + 1 = omega arith in
    let index : (x == 0) ≡ false = ground arith in
    let rest : length (drop (x - 1) text) ≡ length text - x + 1 =
      omega (arith, length-drop (x - 1) text) in
    elim (Bool-cases (ltb (length text - x) y)) [
      | inl long ↦
          let fits : leb (x - 1 + (length text - x + 1)) (length text) ≡ true = ground arith in
          let over : length text - x < y = ltb→lt _ _ long in
          rw (left, long, one_more, index, fits)
            (ap value
              (take_all _ _ (omega (arith, rest)) ∙ sym (take_all _ _ (omega (arith, rest)))))
      | inr short ↦
          let fits : leb (x - 1 + y) (length text) ≡ true = ground arith in
          rw (left, short, index, fits) refl
    ]

abbrev pub argument_token : Text → Token
argument_token t = record { kind = tt_value; text = t }

abbrev bare_token : Kind → Text → Token
bare_token k t = record { kind = k; text = t }

-- The tokens of name(s, x, y).
abbrev pub substr_tokens : (name s x y : Text) → List Token
substr_tokens name s x y =
    bare_token (tt_named tt_substr) name
    ∷ bare_token tt_open_paren []
    ∷ argument_token s
    ∷ bare_token tt_comma []
    ∷ argument_token x
    ∷ bare_token tt_comma []
    ∷ argument_token y
    ∷ bare_token tt_close_paren []
    ∷ []

abbrev substr_queue : (name s x y : Text) → Queue
substr_queue name s x y =
    bare_token tt_function []
    ∷ argument_token y
    ∷ bare_token tt_comma []
    ∷ argument_token x
    ∷ bare_token tt_comma []
    ∷ argument_token s
    ∷ bare_token (tt_named tt_substr) name
    ∷ []

module _ (num : Numeric) (c : Texts) (rest : ℕ → ℕ → Args → Applied) where
  parsed_substr :
      (name s x y : Text)
      → expr 12 (record { tokens = substr_tokens name s x y; queue = [] })
        ≡ (ok, record { tokens = []; queue = substr_queue name s x y })
  unfolding expr expr_loop term func args get_program_token q_token term_of args_of func_args
      func_of close_of close_paren
  parsed_substr name s x y = refl

  -- A call of SUBSTR() in the program, with arguments of a token each and a text of fewer than 2 ^ 32
  -- bytes, read from its tokens and evaluated: the value is the y bytes of the text from the x-th
  -- on, or those that are there, if x is the number of a byte of the text.
  pub expression-substr :
      (name s x y : Text)
      → 0 < c.scan_u x
      → c.scan_u x ≤ length s
      → length s < 2 ^ 32
      → expression num (solve_call num (call_function c rest false) 9) 12 (substr_tokens name s x y)
        ≡ some ((0, take (c.scan_u y) (drop (c.scan_u x - 1) s)), [])
  unfolding expression solve_call solve_function arguments call_function apply dq_token solve round
      first_argument operator
  expression-substr name s x y first inside small =
      rw
        (
          parsed_substr name s x y,
          substr-inside name s (c.scan_u x) (c.scan_u y) first inside small,
        )
        refl
