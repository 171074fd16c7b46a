-- ===== src/Buffers.antt =====
-- source/binary_buffer.c and source/buffer.c: the buffers that grow. A block of memory is the list
-- of its cells, `none` for a cell that nothing was stored in yet; `none` for a whole result is an
-- access outside of a block. The sizes are uint32_t. malloc() and realloc() succeed: where they
-- fail the program exits.
pub mod Memory
pub mod Binary
pub mod Strings
mod Tests
use sc_open.Prelude.{
  ℕ, zero, suc, ◌+◌, ◌-◌, ◌%◌, ◌^◌, Bool, true, false, Option, none, some, List, [], ◌∷◌, ◌++◌,
  length, take, drop, replicate, ltb, leb, ◌==◌, if◌then◌else◌, set,
}

abbrev pub Cell : Type 0
Cell = Option ℕ

abbrev pub Memory : Type 0
Memory = List Cell

unfoldable pub malloc : ℕ → Memory
malloc n = replicate n none

-- realloc(): the cells that both blocks have are kept.
unfoldable pub realloc : Memory → ℕ → Memory
realloc m n = take n m ++ replicate (n - length m) none

-- The cells of some bytes.
unfoldable pub cells : List ℕ → Memory
cells [] = []
cells (x ∷ xs) = some x ∷ cells xs

-- memcpy() to an offset.
unfoldable pub memcpy : Memory → ℕ → List ℕ → Option Memory
memcpy m i xs =
    if leb (i + length xs) (length m)
    then some (take i m ++ (cells xs ++ drop (i + length xs) m))
    else none

abbrev pub max_u32 : ℕ → ℕ → ℕ
max_u32 a b = if ltb b a then a else b

-- BINARY_BUFFER_DEFAULT_SIZE
abbrev pub binary_default_size : ℕ
binary_default_size = 2048

pub record BinaryBuffer : Type 0 where
  pub block : Option Memory
  pub current_in_use : ℕ
  pub current_size : ℕ

unfoldable pub binary_buffree : BinaryBuffer → BinaryBuffer
binary_buffree b = record { block = none; current_in_use = 0; current_size = 0 }

-- INIT_BINARY_BUFFER
unfoldable pub init_binary_buffer : BinaryBuffer
init_binary_buffer = record { block = none; current_in_use = 0; current_size = 0 }

-- binary_bufncat(), its first test: the block, with its size, and a new one if there is none.
abbrev pub binary_first : Option Memory → (size len : ℕ) → Memory × ℕ
binary_first none size len = let new = max_u32 binary_default_size len in (malloc new, new)
binary_first (some m) size len = (m, size)

-- The buffer after the copy.
abbrev pub binary_copied : Option Memory → (in_use size : ℕ) → Option BinaryBuffer
binary_copied none in_use size = none
binary_copied (some m) in_use size =
    some (record { block = some m; current_in_use = in_use; current_size = size })

-- binary_bufncat(), from its second test on: a larger block, the copy.
unfoldable pub binary_copy : (in_use : ℕ) → List ℕ → (size : ℕ) → Memory → Option BinaryBuffer
binary_copy in_use xs size m =
    let wanted = (length xs + in_use) % 2 ^ 32 in
    let grown = max_u32 ((binary_default_size + in_use) % 2 ^ 32) wanted in
    if ltb size wanted
    then binary_copied (memcpy (realloc m grown) in_use xs) wanted grown
    else binary_copied (memcpy m in_use xs) wanted size

unfoldable pub binary_bufncat : BinaryBuffer → List ℕ → Option BinaryBuffer
binary_bufncat b xs =
    let first = binary_first b.block b.current_size (length xs) in
    binary_copy b.current_in_use xs first.1 first.0

unfoldable pub binary_buf_empty : BinaryBuffer → BinaryBuffer
binary_buf_empty b = record b { current_in_use = 0 }

unfoldable pub binary_bufncpy : BinaryBuffer → List ℕ → Option BinaryBuffer
binary_bufncpy b xs = binary_bufncat (record b { current_in_use = 0 }) xs

-- DEFAULT_SIZE
abbrev pub default_size : ℕ
default_size = 64

pub record Buffer : Type 0 where
  pub block : Option Memory
  pub index : ℕ
  pub size : ℕ

-- INIT_BUFFER
unfoldable pub init_buffer : Buffer
init_buffer = record { block = none; index = 0; size = default_size }

unfoldable pub buffree : Buffer → Buffer
buffree b = record { block = none; index = 0; size = default_size }

-- bufncat(), its first test. The NUL that it stores in a new block is stored again behind the copy.
abbrev pub first : Option Memory → (size len : ℕ) → Memory × ℕ
first none size len =
    let new = max_u32 ((len + 1) % 2 ^ 32) size in (set (malloc new) 0 (some 0), new)
first (some m) size len = (m, size)

abbrev pub terminated : Option Memory → (index size : ℕ) → Option Buffer
terminated none index size = none
terminated (some m) index size = some (record { block = some m; index = index; size = size })

-- bufncat(), the copy and the NUL behind it.
abbrev pub copied : Option Memory → (index size : ℕ) → Option Buffer
copied none index size = none
copied (some m) index size = terminated (memcpy m index (0 ∷ [])) index size

-- bufncat(), from its second test on.
unfoldable pub copy : (index : ℕ) → List ℕ → (size : ℕ) → Memory → Option Buffer
copy index xs size m =
    let wanted = (index + length xs + 1) % 2 ^ 32 in
    let grown = max_u32 ((size + default_size) % 2 ^ 32) wanted in
    let end = (index + length xs) % 2 ^ 32 in
    if ltb size wanted
    then copied (memcpy (realloc m grown) index xs) end grown
    else copied (memcpy m index xs) end size

unfoldable pub bufncat : Buffer → List ℕ → Option Buffer
bufncat b xs = let start = first b.block b.size (length xs) in copy b.index xs start.1 start.0

unfoldable pub bufncpy : Buffer → List ℕ → Option Buffer
bufncpy b xs = bufncat (record b { index = 0 }) xs

-- The bytes of a C string in front of its NUL, as strlen() finds it.
unfoldable pub c_string : Memory → Option (List ℕ)
c_string [] = none
c_string (none ∷ m) = none
c_string (some zero ∷ m) = some []
c_string (some (suc c) ∷ m) = elim (c_string m) [ none ↦ none | some cs ↦ some (suc c ∷ cs) ]

-- bufdata(), where a string is read from it.
abbrev pub bufdata_string : Option Memory → Option (List ℕ)
bufdata_string none = none
bufdata_string (some m) = c_string m

-- bufcat(), bufcpy() with a string of another buffer.
abbrev pub with_string {ℓ} : {A : Type ℓ} → Option (List ℕ) → (List ℕ → Option A) → Option A
with_string none f = none
with_string (some xs) f = f xs

abbrev pub with_buffer : Option Buffer → (Buffer → Option Buffer) → Option Buffer
with_buffer none f = none
with_buffer (some b) f = f b

unfoldable pub bufprefix : Buffer → List ℕ → Option Buffer
bufprefix b prefix = with_buffer (bufncpy init_buffer prefix) λ x.
    with_string (bufdata_string b.block)
      λ s. with_buffer (bufncat x s) λ y. with_string (bufdata_string y.block) λ t. bufncpy b t

-- bufnlcpy(), its loop over the bytes of a text and what lies behind them.
unfoldable pub nl_loop : List ℕ → Buffer → Option Buffer
nl_loop [] b = none
nl_loop (c ∷ cs) b =
    let rest = nl_loop cs in if c == 10 then some b else with_buffer (bufncat b (c ∷ [])) rest

unfoldable pub bufnlcpy : Buffer → List ℕ → Option Buffer
bufnlcpy b text = with_buffer (bufncpy b []) (nl_loop text)
