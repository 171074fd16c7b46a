-- ===== src/Buffers/Binary.antt =====
-- A binary buffer is a list of bytes.
pub mod Runs
use sc_open.Prelude.{
  ℕ, ◌+◌, ◌-◌, ◌%◌, ◌^◌, ◌≤◌, ◌<◌, ◌≡◌, refl, sym, ap, subst, ◌∙◌, true, false, Option, none, some,
  List, [], ◌∷◌, ◌++◌, length, take, drop, ltb, if◌then◌else◌, arith, length-append, dec_lt,
}
use sc_open.Buffers.{
  Memory, malloc, realloc, cells, memcpy, max_u32, binary_default_size, BinaryBuffer, binary_first,
  binary_copy, binary_bufncat, binary_buf_empty,
}
use sc_open.Buffers.Memory.{
  length-malloc, length-realloc, take-realloc, memcpy-fits, length-memcpy, take-memcpy,
}

-- A block of a size holds a text in its first cells.
abbrev pub BlockHolds : Memory → (in_use size : ℕ) → List ℕ → Type 0
BlockHolds m in_use size xs =
    (length m ≡ size) × (in_use ≤ size) × (in_use ≡ length xs) × (take in_use m ≡ cells xs)

abbrev pub MaybeHolds : Option Memory → (in_use size : ℕ) → List ℕ → Type 0
MaybeHolds none in_use size xs = (in_use ≡ 0) × (xs ≡ [])
MaybeHolds (some m) in_use size xs = BlockHolds m in_use size xs

-- The invariant of a buffer, and the bytes it stands for.
abbrev pub Holds : BinaryBuffer → List ℕ → Type 0
Holds b xs = MaybeHolds b.block b.current_in_use b.current_size xs

-- The result is a buffer that holds the text.
abbrev pub Gives : Option BinaryBuffer → List ℕ → Type 0
Gives r xs = (b : BinaryBuffer) × (r ≡ some b) × Holds b xs

-- A copy into a block that has the place.
pub copy-room :
    (m : Memory) (in_use size : ℕ) (xs ys : List ℕ)
    → BlockHolds m in_use size xs
    → length ys + in_use ≤ size
    → let copied = take in_use m ++ (cells ys ++ drop (in_use + length ys) m) in
      (memcpy m in_use ys ≡ some copied) × BlockHolds copied (length ys + in_use) size (xs ++ ys)
copy-room m in_use size xs ys (len, le, used, front) room =
    let fits : in_use + length ys ≤ length m = omega arith in
    let before : take (length xs) m ≡ cells xs = ap (λ i. take i m) (sym used) ∙ front in
    (
      memcpy-fits m in_use ys fits,
      (
        length-memcpy m in_use ys fits ∙ len,
        room,
        omega (arith, length-append xs ys),
        ap (λ i. take (length ys + i) (take i m ++ (cells ys ++ drop (in_use + length ys) m))) used
            ∙ take-memcpy m xs ys (drop (in_use + length ys) m) (omega arith) before,
      ),
    )

pub grow-BlockHolds :
    (m : Memory) (in_use size grown : ℕ) (xs : List ℕ)
    → BlockHolds m in_use size xs
    → in_use ≤ grown
    → BlockHolds (realloc m grown) in_use grown xs
grow-BlockHolds m in_use size grown xs (len, le, used, front) h =
    (length-realloc m grown, h, used, take-realloc m grown in_use (omega arith) h ∙ front)

pub max_u32-ge : (a b : ℕ) → (a ≤ max_u32 a b) × (b ≤ max_u32 a b)
max_u32-ge a b = (ground arith, ground arith)

-- A small text: with it the sizes do not wrap.
abbrev pub Small : List ℕ → Type 0
Small xs = binary_default_size + length xs < 2 ^ 32

pub binary_copy-room :
    (m : Memory) (in_use size : ℕ) (xs ys : List ℕ)
    → BlockHolds m in_use size xs
    → Small (xs ++ ys)
    → length ys + in_use ≤ size
    → Gives (binary_copy in_use ys size m) (xs ++ ys)
unfolding binary_copy
binary_copy-room m in_use size xs ys holds small room =
    let small_sum : (length ys + in_use) % 2 ^ 32 ≡ length ys + in_use =
      omega (arith, length-append xs ys, holds.2) in
    let enough : ltb size (length ys + in_use) ≡ false = ground arith in
    let (copy, held) = copy-room m in_use size xs ys holds room in
    (
      record {
        block = some (take in_use m ++ (cells ys ++ drop (in_use + length ys) m));
        current_in_use = length ys + in_use;
        current_size = size;
      },
      rw (binary_copy, small_sum, enough, copy) refl,
      held,
    )

pub binary_copy-grow :
    (m : Memory) (in_use size : ℕ) (xs ys : List ℕ)
    → BlockHolds m in_use size xs
    → Small (xs ++ ys)
    → size < length ys + in_use
    → Gives (binary_copy in_use ys size m) (xs ++ ys)
unfolding binary_copy
binary_copy-grow m in_use size xs ys holds small less =
    let small_sum : (length ys + in_use) % 2 ^ 32 ≡ length ys + in_use =
      omega (arith, length-append xs ys, holds.2) in
    let more : (binary_default_size + in_use) % 2 ^ 32 ≡ binary_default_size + in_use =
      omega (arith, length-append xs ys, holds.2) in
    let short : ltb size (length ys + in_use) ≡ true = ground arith in
    let grown : ℕ = max_u32 (binary_default_size + in_use) (length ys + in_use) in
    let bounds = max_u32-ge (binary_default_size + in_use) (length ys + in_use) in
    let held = grow-BlockHolds m in_use size grown xs holds (omega arith) in
    let (copy, after) = copy-room (realloc m grown) in_use grown xs ys held bounds.1 in
    let block : Memory = realloc m grown in
    (
      record {
        block = some (take in_use block ++ (cells ys ++ drop (in_use + length ys) block));
        current_in_use = length ys + in_use;
        current_size = grown;
      },
      rw (binary_copy, small_sum, more, short, copy) refl,
      after,
    )

pub binary_copy-Gives :
    (m : Memory) (in_use size : ℕ) (xs ys : List ℕ)
    → BlockHolds m in_use size xs
    → Small (xs ++ ys)
    → Gives (binary_copy in_use ys size m) (xs ++ ys)
binary_copy-Gives m in_use size xs ys holds small = elim (dec_lt size (length ys + in_use)) [
  | yes less ↦ binary_copy-grow m in_use size xs ys holds small less
  | no n ↦ binary_copy-room m in_use size xs ys holds small (omega arith)
]

pub malloc-BlockHolds : (n : ℕ) → BlockHolds (malloc n) 0 n []
unfolding cells
malloc-BlockHolds n = (length-malloc n, omega arith, refl, refl)

pub binary_first-BlockHolds :
    (block : Option Memory) (in_use size len : ℕ) (xs : List ℕ)
    → MaybeHolds block in_use size xs
    → let first = binary_first block size len in BlockHolds first.0 in_use first.1 xs
binary_first-BlockHolds none in_use size len xs (unused, nothing) =
    let new : ℕ = max_u32 binary_default_size len in
    subst (λ i. BlockHolds (malloc new) i new xs) (sym unused)
      (subst (λ t. BlockHolds (malloc new) 0 new t) (sym nothing) (malloc-BlockHolds new))
binary_first-BlockHolds (some m) in_use size len xs holds = holds

pub binary_bufncat-Gives :
    (b : BinaryBuffer) (xs ys : List ℕ)
    → Holds b xs
    → Small (xs ++ ys)
    → Gives (binary_bufncat b ys) (xs ++ ys)
unfolding binary_bufncat
binary_bufncat-Gives b xs ys holds small =
    let first = binary_first b.block b.current_size (length ys) in
    binary_copy-Gives first.0 b.current_in_use first.1 xs ys
      (binary_first-BlockHolds b.block b.current_in_use b.current_size (length ys) xs holds) small

pub binary_buf_empty-Holds :
    (b : BinaryBuffer) (xs : List ℕ) → Holds b xs → Holds (binary_buf_empty b) []
unfolding binary_buf_empty cells
binary_buf_empty-Holds b xs holds = emptied b.block b.current_in_use b.current_size xs holds
  where
    emptied :
        (block : Option Memory) (in_use size : ℕ) (xs : List ℕ)
        → MaybeHolds block in_use size xs
        → MaybeHolds block 0 size []
    emptied none in_use size xs h = (refl, refl)
    emptied (some m) in_use size xs h = (h.0, omega arith, refl, refl)
