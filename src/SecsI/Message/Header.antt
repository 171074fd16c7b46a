-- ===== src/SecsI/Message/Header.antt =====
-- The ten header bytes that send_secsII() of source/send_secs.c writes and recv_secs() of
-- source/recv_secs.c reads.
use sc_open.Prelude.{
  ℕ, ◌+◌, ◌*◌, ◌/◌, ◌%◌, ◌^◌, ◌<◌, ◌≡◌, Bool, List, [], ◌∷◌, ltb, if◌then◌else◌, get_or, arith,
  drop, sym,
}
use sc_open.Bytes.{to_wire, from_wire}
use sc_open.Bytes.Order.{to_wire_four, from_wire_four}

-- What a header says.
pub record Header : Type 0 where
  pub rbit : Bool
  pub wait_bit : Bool
  pub device_id : ℕ
  pub stream : ℕ
  pub function : ℕ
  pub last : Bool
  pub block_num : ℕ
  pub system_bytes : ℕ

-- `x |= 0x80` and `x & 0x80` on a `uint8_t`.
abbrev pub set_high : Bool → ℕ → ℕ
set_high flag x = if flag then x % 128 + 128 else x

abbrev pub is_high : ℕ → Bool
is_high x = ltb 127 (x % 256)

-- header[0] to header[9] in send_secsII().
unfoldable pub make_header : Header → List ℕ
make_header h =
    set_high h.rbit (h.device_id / 2 ^ 8 % 256)
    ∷ h.device_id % 256
    ∷ set_high h.wait_bit (h.stream % 256)
    ∷ h.function % 256
    ∷ set_high h.last (h.block_num / 2 ^ 8 % 256)
    ∷ h.block_num % 256
    ∷ h.system_bytes / 2 ^ 24 % 256
    ∷ h.system_bytes / 2 ^ 16 % 256
    ∷ h.system_bytes / 2 ^ 8 % 256
    ∷ h.system_bytes % 256
    ∷ []

-- The parts of a received header, as recv_secs() computes them; recv_secs() itself looks at the
-- block number only by comparing headers.
unfoldable pub read_header : List ℕ → Header
read_header b = record {
  rbit = is_high (get_or b 0 0);
  wait_bit = is_high (get_or b 2 0);
  device_id = get_or b 0 0 % 128 * 256 + get_or b 1 0;
  stream = get_or b 2 0 % 128;
  function = get_or b 3 0;
  last = is_high (get_or b 4 0);
  block_num = get_or b 4 0 % 128 * 256 + get_or b 5 0;
  system_bytes = get_or b 6 0 * 16777216 + get_or b 7 0 * 65536 + get_or b 8 0 * 256 + get_or b 9 0;
}

-- A header whose fields fit the bits that SECS-I gives them.
pub record Fits (h : Header) : Type 0 where
  pub device_fits : h.device_id < 2 ^ 15
  pub stream_fits : h.stream < 2 ^ 7
  pub function_fits : h.function < 2 ^ 8
  pub block_fits : h.block_num < 2 ^ 15
  pub bytes_fit : h.system_bytes < 2 ^ 32

-- A header whose fields fit their bits is read back as it was made.
pub read_header-make_header : (h : Header) → Fits h → read_header (make_header h) ≡ h
unfolding read_header make_header
read_header-make_header h f = ground arith

-- The last four bytes of a header are the system bytes as the HSMS code puts them on the wire, and
-- both transports read the same number from them.
pub header_system_bytes :
    (h : Header)
    → (drop 6 (make_header h) ≡ to_wire 4 h.system_bytes)
      × ((read_header (make_header h)).system_bytes ≡ from_wire (drop 6 (make_header h)))
unfolding make_header read_header
header_system_bytes h = (
  ground (arith, to_wire_four h.system_bytes),
  sym (
      from_wire_four (h.system_bytes / 2 ^ 24 % 256) (h.system_bytes / 2 ^ 16 % 256)
        (h.system_bytes / 2 ^ 8 % 256) (h.system_bytes % 256)),
)
