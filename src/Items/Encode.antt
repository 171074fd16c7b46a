-- ===== src/Items/Encode.antt =====
-- The second loop of secs_encode() of source/secs_encode_sml.c, with get_num_list_elements(): from
-- the tokens behind the head of a message to the bytes of its items. The tokens are those that
-- get_program_token() is still to give, a variable with its value; at the end of the program it
-- gives null tokens without end. The items of floats, the loop statements between items, and
-- make_log(), which secs_encode() calls behind the loop, are not modelled.
pub mod Print
pub mod Values
pub mod Count
pub mod Whole
use sc_open.Prelude.{
  ℕ, zero, suc, ◌+◌, ◌-◌, ◌*◌, ◌%◌, ◌^◌, Bool, true, false, not, ◌&&◌, ◌||◌, Option, none, some,
  List, [], ◌∷◌, ◌++◌, length, get_or, ◌==◌, if◌then◌else◌,
}
use sc_open.Bytes.{to_wire}
use sc_open.Numbers.{Text, ℤ, pos, negsuc, Read, my_atou, my_atoi, my_atobyte}
use sc_open.Program.{Token, tt_null_token, tt_line_number}
use sc_open.Items.{store_data}
use sc_open.Items.Format.{
  Width, one, two, four, eight, width, Format, ascii, binary, boolean, unsigned, signed, float_4,
  float_8, code,
}
use sc_open.Items.Tree.{list_head}
use sc_open.Items.Elements.{tt_greater_than, overflow, item_data, Data, stored, endless}

abbrev pub tt_end_of_line : ℕ
tt_end_of_line = 3

abbrev pub tt_for : ℕ
tt_for = 36

abbrev pub tt_next : ℕ
tt_next = 43

abbrev pub tt_less_than : ℕ
tt_less_than = 66

abbrev pub tt_period : ℕ
tt_period = 84

-- get_num_list_elements(), whose place in the program is restored; none at a loop statement.
unfoldable pub get_num_list_elements : (nest cnt : ℕ) → List Token → Option ℕ
get_num_list_elements nest cnt [] = some cnt
get_num_list_elements nest cnt (t ∷ ts) =
    let first = get_num_list_elements 1 (cnt + 1) ts in
    let opened = get_num_list_elements (nest + 1) cnt ts in
    let closed = get_num_list_elements (nest - 1) cnt ts in
    let more = get_num_list_elements nest cnt ts in
    if t.kind == tt_null_token
    then some cnt
    else if t.kind == tt_less_than
    then (if nest == 0 then first else opened)
    else if t.kind == tt_greater_than
    then (if nest == 0 then some cnt else closed)
    else if (t.kind == tt_for) || (t.kind == tt_next)
    then none
    else more

-- What the tests on a token say.
pub data Start : Type 0 where
  finished skipped list_start : Start
  data_start : Format → Start
  floats statement invalid : Start

unfoldable pub width_start : (Width → Format) → (digit : ℕ) → Start
width_start f c =
    if c == b'1'
    then data_start (f one)
    else if c == b'2'
    then data_start (f two)
    else if c == b'4'
    then data_start (f four)
    else if c == b'8'
    then data_start (f eight)
    else invalid

unfoldable pub float_start : (digit : ℕ) → Start
float_start c = if (c == b'4') || (c == b'8') then floats else invalid

unfoldable pub start_of : Token → Start
start_of t =
    if (t.kind == tt_null_token) || (t.kind == tt_period)
    then finished
    else if t.kind == tt_line_number
    then skipped
    else if t.kind == tt_end_of_line
    then skipped
    else if t.kind == tt_greater_than
    then skipped
    else if t.kind == tt_less_than
    then skipped
    else if get_or t.text 0 0 == b'L'
    then list_start
    else if get_or t.text 0 0 == b'A'
    then data_start ascii
    else if (get_or t.text 0 0 == b'B') && (get_or t.text 1 0 == b'O')
    then data_start boolean
    else if get_or t.text 0 0 == b'B'
    then data_start binary
    else if get_or t.text 0 0 == b'U'
    then width_start unsigned (get_or t.text 1 0)
    else if get_or t.text 0 0 == b'I'
    then width_start signed (get_or t.text 1 0)
    else if get_or t.text 0 0 == b'F'
    then float_start (get_or t.text 1 0)
    else if t.kind == tt_for
    then statement
    else if t.kind == tt_next
    then statement
    else invalid

-- How the loop ends: with the return code and the bytes, never, with a signed overflow, or at what
-- is not modelled.
pub data Encoding : Type 0 where
  returned : (iret : ℕ) → List ℕ → Encoding
  never undefined elsewhere out_of_fuel : Encoding

abbrev pub behind : List ℕ → Encoding → Encoding
behind bytes (returned iret more) = returned iret (bytes ++ more)
behind bytes e = e

abbrev pub store_list : Option ℕ → Encoding → Encoding
store_list none e = elsewhere
store_list (some num) e = behind (list_head num) e

-- STORE_DATA after the loop of the item; with iret set there is no further round.
abbrev pub store : Format → Data → (List Token → Encoding) → Encoding
store f endless next = never
store f overflow next = undefined
store f (stored true bytes rest) next = behind (store_data (code f) bytes) (next rest)
store f (stored false bytes rest) next = returned 1 (store_data (code f) bytes)

abbrev pub encode_start : Start → List Token → (List Token → Encoding) → Encoding
encode_start finished ts next = returned 0 []
encode_start skipped ts next = next ts
encode_start list_start ts next = store_list (get_num_list_elements 0 0 ts) (next ts)
encode_start (data_start f) ts next = store f (item_data f false ts) next
encode_start floats ts next = elsewhere
encode_start statement ts next = elsewhere
encode_start invalid ts next = returned 1 []

-- The loop; every round takes a token.
unfoldable pub encode_loop : ℕ → List Token → Encoding
encode_loop zero ts = out_of_fuel
encode_loop (suc fuel) [] = returned 0 []
encode_loop (suc fuel) (t ∷ ts) = encode_start (start_of t) ts (encode_loop fuel)

unfoldable pub encode_items : List Token → Encoding
encode_items ts = encode_loop (suc (length ts)) ts
