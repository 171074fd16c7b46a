-- ===== src/Items/Elements.antt =====
-- The data of an item from its tokens: the loops of secs_encode() of source/secs_encode_sml.c over
-- the tokens of an item and over the elements of a token. At the end of the program
-- get_program_token() gives null tokens without end.
use sc_open.Prelude.{
  ℕ, zero, suc, ◌-◌, ◌*◌, ◌%◌, ◌^◌, Bool, true, false, ◌&&◌, ◌||◌, Option, none, some, List, [],
  ◌∷◌, ◌++◌, get_or, ◌==◌, if◌then◌else◌,
}
use sc_open.Bytes.{to_wire}
use sc_open.Numbers.{Text, ℤ, pos, negsuc, Read, my_atou, my_atoi, my_atobyte}
use sc_open.Program.{tt_null_token, Token}
use sc_open.Items.Format.{Width, width, Format, ascii, boolean, unsigned, signed}

abbrev pub tt_greater_than : ℕ
tt_greater_than = 64

abbrev pub tt_minus : ℕ
tt_minus = 75

-- The bytes of a token in front of a NUL.
unfoldable pub c_string : Text → Text
c_string [] = []
c_string (c ∷ cs) = let rest = c_string cs in if c == 0 then [] else c ∷ rest

-- An integer cast to a width.
unfoldable pub two_complement : Width → ℤ → ℕ
two_complement w (pos n) = n % 2 ^ (8 * width w)
two_complement w (negsuc n) = 2 ^ (8 * width w) - 1 - n % 2 ^ (8 * width w)

abbrev pub signed_element : Width → Option (Read ℤ) → Option (Read (List ℕ))
signed_element w none = none
signed_element w (some r) =
    some (record { value = to_wire (width w) (two_complement w r.value); cnt = r.cnt })

-- An element that is read where temp_ptr is, in the order of the wire; none for a signed overflow.
unfoldable pub element : Format → Text → Option (Read (List ℕ))
element (unsigned w) p = some (record {
  value = to_wire (width w) ((my_atou p).value % 2 ^ (8 * width w));
  cnt = (my_atou p).cnt;
})
element (signed w) p = signed_element w (my_atoi p)
element _ p = some (record { value = (my_atobyte p).value ∷ []; cnt = (my_atobyte p).cnt })

-- The elements of a token: their bytes and whether all are valid, or none for an overflow.
abbrev pub Elements : Type 0
Elements = Option (List ℕ × Bool)

abbrev pub and_more : List ℕ → Elements → Elements
and_more bytes none = none
and_more bytes (some (more, valid)) = some (bytes ++ more, valid)

abbrev pub after_element : Option (Read (List ℕ)) → (ℕ → Elements) → Elements
after_element none next = none
after_element (some r) next = elim r.cnt [
  | none ↦ some ([], false)
  | some cnt ↦ and_more r.value (next cnt)
]

-- `while (*temp_ptr != '\0')`, with the bytes that `temp_ptr += cnt` still has to pass.
unfoldable pub elements : Format → Text → (skip : ℕ) → Elements
elements f [] skip = some ([], true)
elements f (c ∷ cs) (suc skip) = elements f cs skip
elements f (c ∷ cs) zero = after_element (element f (c ∷ cs)) (λ cnt. elements f cs (cnt - 1))

-- The data of an item with what is left of the tokens, the '>' put back; or a loop without end, or a
-- signed overflow.
pub data Data : Type 0 where
  stored : (valid : Bool) → List ℕ → List Token → Data
  endless overflow : Data

abbrev pub with_bytes : Bool → List ℕ → Data → Data
with_bytes valid bytes (stored more_valid more rest) =
    stored (valid && more_valid) (bytes ++ more) rest
with_bytes valid bytes endless = endless
with_bytes valid bytes overflow = overflow

-- An invalid element ends the walk over its token only.
abbrev pub with_elements : Elements → Data → Data
with_elements none d = overflow
with_elements (some (bytes, valid)) d = with_bytes valid bytes d

unfoldable pub boolean_of : Text → Option ℕ
boolean_of t =
    if (get_or t 0 0 == b'T') || (get_or t 0 0 == b'1')
    then some 1
    else if (get_or t 0 0 == b'F') || (get_or t 0 0 == b'0')
    then some 0
    else none

abbrev pub with_boolean : Option ℕ → List Token → Data → Data
with_boolean none rest d = stored false [] rest
with_boolean (some b) rest d = with_bytes true (b ∷ []) d

-- bufprefix(&token, "-") behind a minus.
abbrev pub value_of : (negative : Bool) → Token → Text
value_of false t = c_string t.text
value_of true t = c_string (b'-' ∷ t.text)

unfoldable pub opens_negative : Format → Token → Bool
opens_negative (signed w) t = t.kind == tt_minus
opens_negative _ t = false

-- What a token adds to the data, by the format; ts and d are the tokens and the data behind it.
unfoldable pub token_data : Format → (negative : Bool) → Token → List Token → Data → Data
token_data ascii negative t ts d = with_bytes true t.text d
token_data boolean negative t ts d = with_boolean (boolean_of t.text) ts d
token_data f negative t ts d = with_elements (elements f (value_of negative t) 0) d

abbrev null_token : Token
null_token = record { kind = tt_null_token; text = [] }

-- `while (1)` over the tokens of an item, up to its '>'; the type of a token behind a minus is not
-- looked at. At the end of the program there is the round of a null token, and what is behind it are
-- such rounds without end.
unfoldable pub item_data : Format → (negative : Bool) → List Token → Data
item_data f negative [] = token_data f negative null_token [] endless
item_data f true (t ∷ ts) = token_data f true t ts (item_data f false ts)
item_data f false (t ∷ ts) =
    let behind = item_data f false ts in
    let behind_minus = item_data f true ts in
    if t.kind == tt_greater_than
    then stored true [] (t ∷ ts)
    else if opens_negative f t
    then behind_minus
    else token_data f false t ts behind
