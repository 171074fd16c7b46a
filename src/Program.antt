-- ===== src/Program.antt =====
-- source/program.c: the program as the bytes of its tokens. A type of a token is its number in
-- headers/tokens.h, of one byte. A result of `none` is an access behind the end of the program.
-- A length is stored as a little-endian machine keeps it; the same code reads it again.
pub mod Reading
pub mod Sequence
pub mod Progress
mod Tests
use sc_open.Prelude.{
  ℕ, zero, suc, ◌+◌, ◌-◌, ◌*◌, ◌/◌, ◌%◌, ◌^◌, Bool, true, false, ◌||◌, Option, none, some, List, [],
  ◌∷◌, ◌++◌, length, take, drop, ltb, leb, ◌==◌, if◌then◌else◌,
}

abbrev pub Text : Type 0
Text = List ℕ

pub record Token : Type 0 where
  pub kind : ℕ
  pub text : Text

abbrev pub tt_null_token : ℕ
tt_null_token = 2

abbrev pub tt_variable : ℕ
tt_variable = 4

abbrev pub tt_identifier : ℕ
tt_identifier = 5

abbrev pub tt_string : ℕ
tt_string = 6

abbrev pub tt_constant : ℕ
tt_constant = 7

abbrev pub tt_number : ℕ
tt_number = 9

abbrev pub tt_line_number : ℕ
tt_line_number = 10

-- The three forms that a token is stored in, which the switches tell apart.
pub data Form : Type 0 where
  terminated counted bare : Form

unfoldable pub form_of : ℕ → Form
form_of kind =
    if kind == tt_number
      || kind == tt_constant
      || kind == tt_identifier
      || kind == tt_variable
      || kind == tt_line_number
    then terminated
    else if kind == tt_string
    then counted
    else bare

-- The bytes of a uint32_t in memory.
unfoldable pub int_bytes : ℕ → List ℕ
int_bytes n = n % 256 ∷ n / 2 ^ 8 % 256 ∷ n / 2 ^ 16 % 256 ∷ n / 2 ^ 24 % 256 ∷ []

unfoldable pub saved_text : Form → Text → List ℕ
saved_text terminated text = text ++ 0 ∷ []
saved_text counted text = int_bytes (length text % 2 ^ 32) ++ text
saved_text bare text = []

-- What read_it() appends to the program for a token.
unfoldable pub save_token : Token → List ℕ
save_token t = t.kind ∷ saved_text (form_of t.kind) t.text

unfoldable pub save_all : List Token → List ℕ
save_all [] = []
save_all (t ∷ ts) = save_token t ++ save_all ts

-- A C string in the program: the bytes in front of its NUL.
unfoldable pub string_at : List ℕ → Option Text
string_at [] = none
string_at (zero ∷ bytes) = some []
string_at (suc c ∷ bytes) = elim (string_at bytes) [ none ↦ none | some cs ↦ some (suc c ∷ cs) ]

-- bufncat() of bytes that stand in the program.
unfoldable pub bytes_at : ℕ → List ℕ → Option (List ℕ)
bytes_at n bytes = if leb n (length bytes) then some (take n bytes) else none

abbrev pub Decoded : Type 0
Decoded = Token × ℕ

abbrev pub decoded_string : ℕ → Option Text → Option Decoded
decoded_string kind none = none
decoded_string kind (some text) = some (record { kind = kind; text = text }, 1 + (length text + 1))

abbrev pub decoded_bytes : (kind len : ℕ) → Option Text → Option Decoded
decoded_bytes kind len none = none
decoded_bytes kind len (some text) = some (record { kind = kind; text = text }, 1 + (4 + len))

unfoldable pub decode_counted : ℕ → List ℕ → Option Decoded
decode_counted kind (a ∷ b ∷ c ∷ d ∷ bytes) =
    let len = a + 2 ^ 8 * b + 2 ^ 16 * c + 2 ^ 24 * d in decoded_bytes kind len (bytes_at len bytes)
decode_counted kind _ = none

unfoldable pub decode_form : Form → ℕ → List ℕ → Option Decoded
decode_form terminated kind bytes = decoded_string kind (string_at bytes)
decode_form counted kind bytes = decode_counted kind bytes
decode_form bare kind bytes = some (record { kind = kind; text = [] }, 1)

-- decode_program_token()
unfoldable pub decode_program_token : List ℕ → Option Decoded
decode_program_token [] = none
decode_program_token (kind ∷ bytes) = decode_form (form_of kind) kind bytes

pub record State : Type 0 where
  pub program : List ℕ
  pub program_idx : ℕ
  pub saved_program_idx : ℕ

abbrev pub null_token : Token
null_token = record { kind = tt_null_token; text = [] }

abbrev pub advance : State → Option Decoded → Option (Token × State)
advance s none = none
advance s (some (t, num)) = some (
  t,
  record s { program_idx = (s.program_idx + num) % 2 ^ 32; saved_program_idx = s.program_idx },
)

unfoldable pub get_program_token_no_eval : State → Option (Token × State)
get_program_token_no_eval s =
    if leb (length s.program) s.program_idx
    then some (null_token, record s { saved_program_idx = s.program_idx })
    else advance s (decode_program_token (drop s.program_idx s.program))

-- put_program_token()
unfoldable pub put_program_token : State → State
put_program_token s = record s { program_idx = s.saved_program_idx }

-- set_program_token_idx()
unfoldable pub set_program_token_idx : ℕ → State → State
set_program_token_idx idx s = record s { program_idx = idx }
