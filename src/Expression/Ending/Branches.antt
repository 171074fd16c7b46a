-- ===== src/Expression/Ending/Branches.antt =====
-- The branches of the parser end if the parsers that they call do.
use sc_open.Prelude.{ℕ, ◌≤◌, Bool-cases, inl, inr, List, [], ◌∷◌, length, ltb, arith}
use sc_open.Expression.{
  plus, minus, mult, divide, period, colon, logical_and, logical_or, bitwise_and, bitwise_or,
  bitwise_xor, less_than, greater_than, equal, not_equal, less_than_equal, greater_than_equal,
  str_equal, str_not_equal, unary_minus, unary_plus, ones_complement, Kind, tt_null, tt_value,
  tt_open_paren, tt_close_paren, tt_comma, tt_function, tt_other, tt_named, tt_op, tt_unary, Token,
  Queue, Ret, ok, failed, fatal, no_fuel, State, Parser, ◌then_do◌, get_program_token, q_token,
  ignored, close_of, close_paren, term_of, args_of, func_args, func_of,
}

-- A parser that ends with at most n tokens left.
abbrev pub Ends : ℕ → Ret × State → Type 0
Ends n (ok, p) = length p.tokens ≤ n
Ends n (failed, p) = length p.tokens ≤ n
Ends n (fatal, p) = Unit
Ends n (no_fuel, p) = ⊥

-- A parser that ends on every state of at most n tokens.
abbrev pub EndsAll : ℕ → Parser → Type 0
EndsAll n f = (p : State) (m : ℕ) → length p.tokens ≤ m → m ≤ n → Ends m (f p)

pub then_do-Ends :
    (n m : ℕ) (r : Ret × State) (f : Parser) → Ends m r → m ≤ n → EndsAll n f → Ends m (r then_do f)
then_do-Ends n m (ok, p) f h le w = w p m h le
then_do-Ends n m (failed, p) f h le w = h
then_do-Ends n m (fatal, p) f h le w = tt
then_do-Ends n m (no_fuel, p) f h le w = absurd h

pub ignored-Ends : (m : ℕ) (r : Ret × State) → Ends m r → Ends m (ignored r)
ignored-Ends m (ok, p) h = h
ignored-Ends m (failed, p) h = h
ignored-Ends m (fatal, p) h = tt
ignored-Ends m (no_fuel, p) h = h

pub q_token-Ends : (t : Token) (n : ℕ) → EndsAll n (q_token t)
unfolding q_token
q_token-Ends t n p m h le = elim (Bool-cases (ltb (length p.queue) 500)) [
  | inl y ↦ rw y h
  | inr y ↦ rw y tt
]

pub close_of-Ends : (k : Kind) (t : Token) (n : ℕ) → EndsAll n (close_of k t)
unfolding close_of
close_of-Ends tt_close_paren t n = q_token-Ends t n
close_of-Ends tt_null t n = λ p m h le. h
close_of-Ends tt_value t n = λ p m h le. h
close_of-Ends tt_open_paren t n = λ p m h le. h
close_of-Ends tt_comma t n = λ p m h le. h
close_of-Ends tt_function t n = λ p m h le. h
close_of-Ends tt_other t n = λ p m h le. h
close_of-Ends (tt_named f) t n = λ p m h le. h
close_of-Ends (tt_op o) t n = λ p m h le. h
close_of-Ends (tt_unary u) t n = λ p m h le. h

-- The token that is read, if there is one, is off the list.
pub get_program_token-le : (p : State) → length (get_program_token p).1.tokens ≤ length p.tokens
unfolding get_program_token
get_program_token-le p = go p.tokens p.queue
  where
    go :
        (ts : List Token) (q : Queue)
        → length (get_program_token (record { tokens = ts; queue = q })).1.tokens ≤ length ts
    go [] q = omega arith
    go (t ∷ ts) q = omega arith

pub close_paren-Ends : (n : ℕ) → EndsAll n close_paren
unfolding close_paren
close_paren-Ends n p m h le =
    let t = get_program_token p in
    close_of-Ends t.0.kind t.0 n t.1 m (omega (arith, get_program_token-le p)) le

-- The branches of term() behind the token, if the parsers that they call end.
pub term_of-Ends :
    (inner sub call : Parser) (k : Kind) (t : Token) (n : ℕ)
    → EndsAll n inner
    → EndsAll n sub
    → EndsAll n call
    → EndsAll n (term_of inner sub call k t)
unfolding term_of
term_of-Ends inner sub call (tt_named f) t n a b c p m h le =
    then_do-Ends n m (q_token t p) call (q_token-Ends t n p m h le) le c
term_of-Ends inner sub call tt_value t n a b c p m h le = q_token-Ends t n p m h le
term_of-Ends inner sub call tt_open_paren t n a b c p m h le =
    then_do-Ends n m (q_token t p then_do sub) close_paren
      (then_do-Ends n m (q_token t p) sub (q_token-Ends t n p m h le) le b) le (close_paren-Ends n)
term_of-Ends inner sub call (tt_op plus) t n a b c p m h le =
    let u : Token = record t { kind = tt_unary unary_plus } in
    then_do-Ends n m (q_token u p) (λ s. ignored (inner s)) (q_token-Ends u n p m h le) le
      (λ s i x y. ignored-Ends i (inner s) (a s i x y))
term_of-Ends inner sub call (tt_op minus) t n a b c p m h le =
    let u : Token = record t { kind = tt_unary unary_minus } in
    then_do-Ends n m (q_token u p) (λ s. ignored (inner s)) (q_token-Ends u n p m h le) le
      (λ s i x y. ignored-Ends i (inner s) (a s i x y))
term_of-Ends inner sub call (tt_unary ones_complement) t n a b c p m h le =
    then_do-Ends n m (q_token t p) (λ s. ignored (inner s)) (q_token-Ends t n p m h le) le
      (λ s i x y. ignored-Ends i (inner s) (a s i x y))
term_of-Ends inner sub call tt_null t n a b c p m h le = h
term_of-Ends inner sub call tt_close_paren t n a b c p m h le = h
term_of-Ends inner sub call tt_comma t n a b c p m h le = h
term_of-Ends inner sub call tt_function t n a b c p m h le = h
term_of-Ends inner sub call tt_other t n a b c p m h le = h
term_of-Ends inner sub call (tt_unary unary_minus) t n a b c p m h le = h
term_of-Ends inner sub call (tt_unary unary_plus) t n a b c p m h le = h
term_of-Ends inner sub call (tt_op mult) t n a b c p m h le = h
term_of-Ends inner sub call (tt_op divide) t n a b c p m h le = h
term_of-Ends inner sub call (tt_op period) t n a b c p m h le = h
term_of-Ends inner sub call (tt_op colon) t n a b c p m h le = h
term_of-Ends inner sub call (tt_op logical_and) t n a b c p m h le = h
term_of-Ends inner sub call (tt_op logical_or) t n a b c p m h le = h
term_of-Ends inner sub call (tt_op bitwise_and) t n a b c p m h le = h
term_of-Ends inner sub call (tt_op bitwise_or) t n a b c p m h le = h
term_of-Ends inner sub call (tt_op bitwise_xor) t n a b c p m h le = h
term_of-Ends inner sub call (tt_op less_than) t n a b c p m h le = h
term_of-Ends inner sub call (tt_op greater_than) t n a b c p m h le = h
term_of-Ends inner sub call (tt_op equal) t n a b c p m h le = h
term_of-Ends inner sub call (tt_op not_equal) t n a b c p m h le = h
term_of-Ends inner sub call (tt_op less_than_equal) t n a b c p m h le = h
term_of-Ends inner sub call (tt_op greater_than_equal) t n a b c p m h le = h
term_of-Ends inner sub call (tt_op str_equal) t n a b c p m h le = h
term_of-Ends inner sub call (tt_op str_not_equal) t n a b c p m h le = h

pub args_of-Ends :
    (sub more : Parser) (k : Kind) (t : Token) (n : ℕ)
    → EndsAll n sub
    → EndsAll n more
    → EndsAll n (args_of sub more k t)
unfolding args_of
args_of-Ends sub more tt_close_paren t n a b p m h le =
    q_token-Ends (record t { kind = tt_function }) n p m h le
args_of-Ends sub more tt_comma t n a b p m h le =
    then_do-Ends n m (q_token t p then_do sub) more
      (then_do-Ends n m (q_token t p) sub (q_token-Ends t n p m h le) le a) le b
args_of-Ends sub more tt_null t n a b p m h le = h
args_of-Ends sub more tt_value t n a b p m h le = h
args_of-Ends sub more tt_open_paren t n a b p m h le = h
args_of-Ends sub more tt_function t n a b p m h le = h
args_of-Ends sub more tt_other t n a b p m h le = h
args_of-Ends sub more (tt_named f) t n a b p m h le = h
args_of-Ends sub more (tt_op o) t n a b p m h le = h
args_of-Ends sub more (tt_unary u) t n a b p m h le = h

pub func_args-Ends :
    (sub more : Parser) (k : Kind) (t : Token) (before : State) (n m : ℕ)
    → EndsAll n sub
    → EndsAll n more
    → length before.tokens ≤ m
    → m ≤ n
    → (p : State) → length p.tokens ≤ m
    → Ends m (func_args sub more k t before p)
unfolding func_args
func_args-Ends sub more tt_close_paren t before n m a b g le p h =
    q_token-Ends (record t { kind = tt_function }) n p m h le
func_args-Ends sub more tt_null t before n m a b g le p h =
    then_do-Ends n m (sub before) more (a before m g le) le b
func_args-Ends sub more tt_value t before n m a b g le p h =
    then_do-Ends n m (sub before) more (a before m g le) le b
func_args-Ends sub more tt_open_paren t before n m a b g le p h =
    then_do-Ends n m (sub before) more (a before m g le) le b
func_args-Ends sub more tt_comma t before n m a b g le p h =
    then_do-Ends n m (sub before) more (a before m g le) le b
func_args-Ends sub more tt_function t before n m a b g le p h =
    then_do-Ends n m (sub before) more (a before m g le) le b
func_args-Ends sub more tt_other t before n m a b g le p h =
    then_do-Ends n m (sub before) more (a before m g le) le b
func_args-Ends sub more (tt_named f) t before n m a b g le p h =
    then_do-Ends n m (sub before) more (a before m g le) le b
func_args-Ends sub more (tt_op o) t before n m a b g le p h =
    then_do-Ends n m (sub before) more (a before m g le) le b
func_args-Ends sub more (tt_unary u) t before n m a b g le p h =
    then_do-Ends n m (sub before) more (a before m g le) le b

pub func_of-Ends :
    (sub more : Parser) (k : Kind) (n : ℕ)
    → EndsAll n sub
    → EndsAll n more
    → EndsAll n (func_of sub more k)
unfolding func_of
func_of-Ends sub more tt_open_paren n a b p m h le =
    let t = get_program_token p in
    func_args-Ends sub more t.0.kind t.0 p n m a b h le t.1 (omega (arith, get_program_token-le p))
func_of-Ends sub more tt_null n a b p m h le = h
func_of-Ends sub more tt_value n a b p m h le = h
func_of-Ends sub more tt_close_paren n a b p m h le = h
func_of-Ends sub more tt_comma n a b p m h le = h
func_of-Ends sub more tt_function n a b p m h le = h
func_of-Ends sub more tt_other n a b p m h le = h
func_of-Ends sub more (tt_named f) n a b p m h le = h
func_of-Ends sub more (tt_op o) n a b p m h le = h
func_of-Ends sub more (tt_unary u) n a b p m h le = h
