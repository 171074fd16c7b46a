-- ===== src/Bytes.antt =====
-- source/swap.c and the unions of headers/include.h: the memory image of an unsigned integer on the
-- little-endian host and its reversal into the order of the wire.
pub mod Order
mod Tests
use sc_open.Prelude.{
  ℕ, zero, suc, ◌+◌, ◌-◌, ◌*◌, ◌/◌, ◌%◌, ◌^◌, ◌<◌, List, [], ◌∷◌, ◌++◌, take, drop, set, replicate,
  length,
}

-- A `uint8_t`.
abbrev pub Byte : ℕ → Type 0
Byte x = x < 256

-- The scratch array of swap(), 64 bytes; what it holds before the loop is never read.
abbrev pub swap_scratch : List ℕ
swap_scratch = replicate 64 0

-- `for (i = 0; i < size; i++) tmp[size-i-1] = data[i];` with the count of rounds left, the index
-- and the bytes from the index on. A read past the data ends the loop.
pub reverse_into : (rounds size i : ℕ) → (rest tmp : List ℕ) → List ℕ
reverse_into zero size i rest tmp = tmp
reverse_into (suc n) size i [] tmp = tmp
reverse_into (suc n) size i (x ∷ rest) tmp =
    reverse_into n size (i + 1) rest (set tmp (size - i - 1) x)

-- swap(data, size) on a little-endian host: the first `size` bytes are overwritten in place.
unfoldable pub swap : List ℕ → ℕ → List ℕ
unfolding reverse_into
swap bytes size = take size (reverse_into size size 0 bytes swap_scratch) ++ drop size bytes

-- The memory image of a `width`-byte unsigned integer on the host.
unfoldable pub host_bytes : (width n : ℕ) → List ℕ
host_bytes zero n = []
host_bytes (suc w) n = n % 256 ∷ host_bytes w (n / 256)

-- The integer of a memory image on the host.
unfoldable pub from_host : List ℕ → ℕ
from_host [] = 0
from_host (x ∷ xs) = x + 256 * from_host xs

-- The union assignment followed by swap(), as at every place that puts an integer on the wire.
unfoldable pub to_wire : (width n : ℕ) → List ℕ
unfolding swap host_bytes
to_wire w n = swap (host_bytes w n) w

-- memcpy() into the union followed by swap(), as at every place that reads one.
unfoldable pub from_wire : List ℕ → ℕ
unfolding swap from_host
from_wire bytes = from_host (swap bytes (length bytes))
