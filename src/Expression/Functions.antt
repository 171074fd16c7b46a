-- ===== src/Expression/Functions.antt =====
-- solve_function() of source/expression.c: the arguments of a function, taken off the queue from the
-- last to the first, and the functions on texts and numbers. sscanf(), sprintf(), strtol(), strstr(),
-- tolower() and toupper() are of the C library. The functions on files, time, variables and the
-- system are an argument.
pub mod Bits
pub mod Arguments
use sc_open.Prelude.{
  ℕ, zero, suc, ◌+◌, ◌-◌, ◌*◌, ◌/◌, ◌%◌, ◌^◌, Bool, true, false, Option, none, some, List, [], ◌∷◌,
  ◌++◌, length, map, take, drop, ltb, leb, ◌==◌, if◌then◌else◌,
}
use sc_open.Expression.{
  Kind, tt_null, tt_value, tt_open_paren, tt_close_paren, tt_comma, tt_function, tt_other, tt_named,
  tt_op, tt_unary, Text, Token, Queue, dq_token,
}
use sc_open.Expression.Solve.{Numeric, Solved, Call, done, solve}

pub record Texts : Type 0 where
  -- The number of "%u", or 0.
  pub scan_u : Text → ℕ
  -- "%u" and "%lu", "%d" of a uint32_t, and "%X" with a width.
  pub print_u : ℕ → Text
  pub print_d : ℕ → Text
  pub print_hex : (format number : Text) → Text
  -- strtol() with a base, as a uint64_t, and whether all of the text is used.
  pub strtol : (base : ℕ) → Text → ℕ × Bool
  -- The index of the first occurrence of the second text in the first.
  pub strstr : Text → Text → Option ℕ
  pub tolower : ℕ → ℕ
  pub toupper : ℕ → ℕ

-- arg0 is the last argument of the call.
pub record Args : Type 0 where
  pub arg0 : Text
  pub arg1 : Text
  pub arg2 : Text

-- The token that a function puts on the queue, its error return, or an access outside of a text.
pub data Applied : Type 0 where
  value : Text → Applied
  failure outside : Applied

abbrev pub tt_substr : ℕ
tt_substr = 91

abbrev pub tt_strlen : ℕ
tt_strlen = 94

abbrev pub tt_htoi : ℕ
tt_htoi = 109

abbrev pub tt_otoi : ℕ
tt_otoi = 110

abbrev pub tt_btoi : ℕ
tt_btoi = 116

abbrev pub tt_itob : ℕ
tt_itob = 118

abbrev pub tt_abs : ℕ
tt_abs = 119

abbrev pub tt_instring : ℕ
tt_instring = 121

abbrev pub tt_tolower : ℕ
tt_tolower = 131

abbrev pub tt_toupper : ℕ
tt_toupper = 132

abbrev pub tt_mod : ℕ
tt_mod = 133

-- The four digits of the loop on `uc & 8`.
unfoldable pub nibble_bits : ℕ → Text
nibble_bits uc =
    (b'0' + uc / 8 % 2) ∷ (b'0' + uc / 4 % 2) ∷ (b'0' + uc / 2 % 2) ∷ (b'0' + uc % 2) ∷ []

-- A byte of the hexadecimal text.
unfoldable pub nibble : ℕ → ℕ
nibble c = if c == b' ' then 0 else if leb c b'9' then c % 16 else c % 16 + 9

unfoldable pub itob_bits : Text → Text
itob_bits [] = []
itob_bits (c ∷ cs) = nibble_bits (nibble c) ++ itob_bits cs

-- SUBSTR, with its uint32_t index x and count y; at the index 0 `token` still has the name.
unfoldable pub substr : (name text : Text) (x y : ℕ) → Applied
substr name text x y =
    let left = (length text + (2 ^ 32 - x)) % 2 ^ 32 in
    let count = if ltb left y then (left + 1) % 2 ^ 32 else y in
    if x == 0
    then value name
    else if leb (x - 1 + count) (length text)
    then value (take count (drop (x - 1) text))
    else outside

abbrev pub converted : (ℕ → Text) → ℕ × Bool → Applied
converted print (n, false) = failure
converted print (n, true) = value (print n)

abbrev pub position : (ℕ → Text) → Option ℕ → Applied
position print none = value (b'0' ∷ [])
position print (some i) = value (print (i + 1))

module _ (c : Texts) (rest : ℕ → (i_arg : ℕ) → Args → Applied) where
  -- The branches on the type of the function.
  unfoldable pub apply : (type : ℕ) → (name : Text) → (i_arg : ℕ) → Args → Applied
  apply type name i_arg a =
      if type == tt_strlen
      then value (c.print_d (length a.arg0))
      else if type == tt_tolower
      then value (map c.tolower a.arg0)
      else if type == tt_toupper
      then value (map c.toupper a.arg0)
      else if type == tt_htoi
      then converted c.print_u (c.strtol 16 a.arg0)
      else if type == tt_otoi
      then converted c.print_u (c.strtol 8 a.arg0)
      else if type == tt_btoi
      then converted c.print_u (c.strtol 2 a.arg0)
      else if type == tt_itob
      then value (itob_bits (c.print_hex a.arg0 a.arg1))
      else if type == tt_instring
      then position c.print_d (c.strstr a.arg1 a.arg0)
      else if type == tt_substr
      then substr name a.arg2 (c.scan_u a.arg1) (c.scan_u a.arg0)
      else if type == tt_abs
      then value (c.print_u (c.scan_u a.arg0))
      else if type == tt_mod
      then (if c.scan_u a.arg0 == 0
          then failure
          else value (c.print_d (c.scan_u a.arg1 % c.scan_u a.arg0)))
      else rest type i_arg a

  -- The end of solve_function(): an access outside of a text has no result.
  abbrev pub applied : Applied → Queue → Option Solved
  applied (value t) q = done 0 t (record { kind = tt_value; text = t } ∷ q)
  applied failure q = done 1 [] q
  applied outside q = none

  unfoldable pub call_function :
      (syntax_check : Bool)
      → (type : ℕ) → (name : Text) → (i_arg : ℕ) → Args
      → Queue
      → Option Solved
  call_function true type name i_arg a q = applied (value (b'0' ∷ [])) q
  call_function false type name i_arg a q = applied (apply type name i_arg a) q

-- An argument into its place; none for a fourth.
abbrev pub with_arg : (i_arg : ℕ) → Text → Args → Option Args
with_arg zero t a = some (record a { arg0 = t })
with_arg (suc zero) t a = some (record a { arg1 = t })
with_arg (suc (suc zero)) t a = some (record a { arg2 = t })
with_arg (suc (suc (suc i))) t a = none

-- What is done with a function and its arguments, by the type, the name and the number of commas.
abbrev pub Apply : Type 0
Apply = (type : ℕ) → (name : Text) → (i_arg : ℕ) → Args → Queue → Option Solved

abbrev pub placed : Option Args → Text → Queue → (Args → Option Solved) → Option Solved
placed none t q next = done 1 t q
placed (some a) t q next = next a

-- The value that solve() has left on the queue.
abbrev pub solved_arg :
    Option Solved → (i_arg : ℕ) → Args → (Args → Queue → Option Solved) → Option Solved
solved_arg none i_arg a next = none
solved_arg (some s) i_arg a next =
    let d = dq_token s.queue in
    if s.code == 0
    then placed (with_arg i_arg d.0.text a) d.0.text d.1 (λ b. next b d.1)
    else some s

-- What a token of the queue is for the loop: a comma, the function, or the end of an argument.
pub data Piece : Type 0 where
  comma argument : Piece
  function : ℕ → Piece

abbrev pub piece_of : Kind → Piece
piece_of tt_comma = comma
piece_of (tt_named f) = function f
piece_of _ = argument

module _ (rec : Call) (apply_to : Apply) where
  -- The loop over the arguments, where every round takes a token off the queue for good.
  unfoldable pub arguments : ℕ → (i_arg : ℕ) → Args → Queue → Option Solved
  arguments zero i_arg a q = none
  arguments (suc fuel) i_arg a q =
      let d = dq_token q in
      let behind_comma = arguments fuel (i_arg + 1) a d.1 in
      elim (piece_of d.0.kind) [
        | comma ↦ behind_comma
        | function f ↦ apply_to f d.0.text i_arg a d.1
        | argument ↦ solved_arg (rec d.0.text (d.0 ∷ d.1)) i_arg a (arguments fuel i_arg)
      ]

  unfoldable pub solve_function : (fuel : ℕ) → Call
  solve_function fuel t q = arguments fuel 0 (record { arg0 = []; arg1 = []; arg2 = [] }) q

-- solve() and solve_function() call each other; the fuel bounds the depth of the calls, their rounds
-- and those of the arguments.
unfoldable pub solve_call : Numeric → Apply → (fuel : ℕ) → Call
solve_call num apply_to zero t q = none
solve_call num apply_to (suc n) t q =
    solve_function (solve num (solve_call num apply_to n) n) apply_to n t q
