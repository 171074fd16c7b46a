-- ===== src/Items.antt =====
-- The format byte and the length bytes of a SECS-II item: set_size_bytes() and the macro STORE_DATA
-- of source/secs_encode_sml.c, and the head of the loop of secs_decode() in
-- source/secs_decode_sml.c.
pub mod Header
pub mod Format
pub mod Tree
pub mod Elements
pub mod Encode
pub mod EndToEnd
pub mod Entries
pub mod Meaning
pub mod Decode
mod Tests
use sc_open.Prelude.{
  ℕ, ◌+◌, ◌*◌, ◌/◌, ◌%◌, ◌^◌, List, [], ◌∷◌, ◌++◌, length, get_or, drop, leb, ◌==◌, if◌then◌else◌,
}

-- set_size_bytes(): the bytes of `data` that its result counts.
unfoldable pub set_size_bytes : ℕ → List ℕ
set_size_bytes item_length =
    if leb item_length 0xFF
    then item_length ∷ []
    else if leb item_length 0xFFFF
    then item_length / 2 ^ 8 % 256 ∷ item_length % 256 ∷ []
    else item_length / 2 ^ 16 % 256 ∷ item_length / 2 ^ 8 % 256 ∷ item_length % 256 ∷ []

-- STORE_DATA, where `num_bytes` is the size of the data: the type of the data with the number of the length bytes, these bytes, and the data.
unfoldable pub store_data : (data_type : ℕ) → List ℕ → List ℕ
store_data data_type bytes =
    let size = set_size_bytes (length bytes) in (data_type + length size) % 256 ∷ (size ++ bytes)

-- What secs_decode() reads in front of the data of an item.
pub record ItemHeader : Type 0 where
  pub data_type : ℕ
  pub size : ℕ
  pub rest : List ℕ

-- `*p & 0xFC` and `*p & 0x03`, and then the length bytes; a byte past the end reads as 0 here.
unfoldable pub read_item_header : List ℕ → ItemHeader
read_item_header p =
    let num_length_bits : ℕ = get_or p 0 0 % 4 in
    let data_type : ℕ = get_or p 0 0 / 4 * 4 in
    if num_length_bits == 1
    then record { data_type = data_type; size = get_or p 1 0; rest = drop 2 p }
    else if num_length_bits == 2
    then record { data_type = data_type; size = get_or p 1 0 * 256 + get_or p 2 0; rest = drop 3 p }
    else record {
      data_type = data_type;
      size = get_or p 1 0 * 65536 + get_or p 2 0 * 256 + get_or p 3 0;
      rest = drop 4 p;
    }
