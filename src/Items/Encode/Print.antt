-- ===== src/Items/Encode/Print.antt =====
-- The items of a message as they are written in a program, and their tokens.
use sc_open.Prelude.{ℕ, ◌^◌, ◌*◌, ◌<◌, Bool, true, false, List, [], ◌∷◌, ◌++◌, map, All}
use sc_open.Bytes.{to_wire}
use sc_open.Numbers.{Text, my_utoa}
use sc_open.Program.{Token, tt_identifier, tt_string, tt_number}
use sc_open.Items.Format.{Width, one, two, four, eight, width, Format, ascii, boolean, unsigned}
use sc_open.Items.Tree.{Forest, end, list, data_item}
use sc_open.Items.Encode.{tt_less_than}
use sc_open.Items.Elements.{tt_greater_than}

pub data Values : Type 0 where
  texts : List Text → Values
  booleans : List Bool → Values
  unsigneds : Width → List ℕ → Values

pub data Sml : Type 0 where
  finish : Sml
  nested : (items rest : Sml) → Sml
  leaf : Values → (rest : Sml) → Sml

abbrev pub word : Text → Token
word t = record { kind = tt_identifier; text = t }

abbrev pub less_than : Token
less_than = record { kind = tt_less_than; text = [] }

abbrev pub greater_than : Token
greater_than = record { kind = tt_greater_than; text = [] }

abbrev pub list_word : Token
list_word = word (b'L' ∷ [])

abbrev pub format_text : Values → Text
format_text (texts ts) = b'A' ∷ []
format_text (booleans bs) = b'B' ∷ b'O' ∷ []
format_text (unsigneds one ns) = b'U' ∷ b'1' ∷ []
format_text (unsigneds two ns) = b'U' ∷ b'2' ∷ []
format_text (unsigneds four ns) = b'U' ∷ b'4' ∷ []
format_text (unsigneds eight ns) = b'U' ∷ b'8' ∷ []

abbrev pub text_token : Text → Token
text_token t = record { kind = tt_string; text = t }

abbrev pub boolean_token : Bool → Token
boolean_token false = word (b'F' ∷ [])
boolean_token true = word (b'T' ∷ [])

abbrev pub number_token : ℕ → Token
number_token n = record { kind = tt_number; text = my_utoa n }

abbrev pub value_tokens : Values → List Token
value_tokens (texts ts) = map text_token ts
value_tokens (booleans bs) = map boolean_token bs
value_tokens (unsigneds w ns) = map number_token ns

unfoldable pub tokens : Sml → List Token
tokens finish = []
tokens (nested items rest) = less_than ∷ list_word ∷ (tokens items ++ greater_than ∷ tokens rest)
tokens (leaf v rest) =
    less_than ∷ word (format_text v) ∷ (value_tokens v ++ greater_than ∷ tokens rest)

abbrev pub format : Values → Format
format (texts ts) = ascii
format (booleans bs) = boolean
format (unsigneds w ns) = unsigned w

abbrev pub boolean_byte : Bool → ℕ
boolean_byte false = 0
boolean_byte true = 1

abbrev pub all_text : List Text → Text
all_text [] = []
all_text (t ∷ ts) = t ++ all_text ts

abbrev pub all_wire : Width → List ℕ → List ℕ
all_wire w [] = []
all_wire w (n ∷ ns) = to_wire (width w) n ++ all_wire w ns

abbrev pub value_bytes : Values → List ℕ
value_bytes (texts ts) = all_text ts
value_bytes (booleans bs) = map boolean_byte bs
value_bytes (unsigneds w ns) = all_wire w ns

-- The items that are meant.
unfoldable pub forest : Sml → Forest
forest finish = end
forest (nested items rest) = list (forest items) (forest rest)
forest (leaf v rest) = data_item (format v) (value_bytes v) (forest rest)

-- Every number has its width.
abbrev pub IsInRange : Values → Type 0
IsInRange (texts ts) = Unit
IsInRange (booleans bs) = Unit
IsInRange (unsigneds w ns) = All (λ n. n < 2 ^ (8 * width w)) ns

abbrev pub IsWritable : Sml → Type 0
IsWritable finish = Unit
IsWritable (nested items rest) = IsWritable items × IsWritable rest
IsWritable (leaf v rest) = IsInRange v × IsWritable rest
