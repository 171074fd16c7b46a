-- ===== src/Buffers/Binary/Runs.antt =====
-- Runs of the operations on a binary buffer.
use sc_open.Prelude.{ℕ, refl, Option, none, some, List, [], ◌∷◌, ◌++◌}
use sc_open.Buffers.{
  BinaryBuffer, init_binary_buffer, binary_buffree, binary_bufncat, binary_buf_empty,
  binary_bufncpy,
}
use sc_open.Buffers.Binary.{Holds, Gives, Small, binary_bufncat-Gives, binary_buf_empty-Holds}

-- The operations that change a binary buffer.
pub data Operation : Type 0 where
  cat : List ℕ → Operation
  cpy : List ℕ → Operation
  empty : Operation
  free : Operation

unfoldable pub perform : BinaryBuffer → Operation → Option BinaryBuffer
perform b (cat xs) = binary_bufncat b xs
perform b (cpy xs) = binary_bufncpy b xs
perform b empty = some (binary_buf_empty b)
perform b free = some (binary_buffree b)

-- What an operation does to the bytes that the buffer stands for.
unfoldable pub meaning : List ℕ → Operation → List ℕ
meaning xs (cat ys) = xs ++ ys
meaning xs (cpy ys) = ys
meaning xs empty = []
meaning xs free = []

unfoldable pub perform_all : BinaryBuffer → List Operation → Option BinaryBuffer
perform_all b [] = some b
perform_all b (o ∷ os) = elim (perform b o) [ none ↦ none | some c ↦ perform_all c os ]

unfoldable pub meaning_all : List ℕ → List Operation → List ℕ
meaning_all xs [] = xs
meaning_all xs (o ∷ os) = meaning_all (meaning xs o) os

-- Every text that the run makes is small.
abbrev pub AllSmall : List ℕ → List Operation → Type 0
AllSmall xs [] = Unit
AllSmall xs (o ∷ os) = Small (meaning xs o) × AllSmall (meaning xs o) os

perform-Gives :
    (o : Operation) (b : BinaryBuffer) (xs : List ℕ)
    → Holds b xs
    → Small (meaning xs o)
    → Gives (perform b o) (meaning xs o)
unfolding perform meaning
perform-Gives (cat ys) b xs h small = binary_bufncat-Gives b xs ys h small
perform-Gives (cpy ys) b xs h small =
    unfold binary_bufncpy binary_buf_empty in
    binary_bufncat-Gives (binary_buf_empty b) [] ys (binary_buf_empty-Holds b xs h) small
perform-Gives empty b xs h small = (binary_buf_empty b, refl, binary_buf_empty-Holds b xs h)
perform-Gives free b xs h small = unfold binary_buffree in (binary_buffree b, refl, (refl, refl))

-- Every run of appends, copies, emptyings and releases on a binary buffer succeeds with no access
-- outside of its block, and the buffer then holds the bytes that the run makes of those it held,
-- with their number in use and the size of the block in current_size, as long as each text in
-- between is more than 2048 bytes shorter than 2 ^ 32.
pub perform_all-Gives :
    (os : List Operation) (b : BinaryBuffer) (xs : List ℕ)
    → Holds b xs
    → AllSmall xs os
    → Gives (perform_all b os) (meaning_all xs os)
unfolding perform_all meaning_all
perform_all-Gives [] b xs h small = (b, refl, h)
perform_all-Gives (o ∷ os) b xs h small =
    let (c, e, held) = perform-Gives o b xs h small.0 in
    let (d, f, after) = perform_all-Gives os c (meaning xs o) held small.1 in
    (d, rw (perform_all, e) f, after)

pub init_binary_buffer-Holds : Holds init_binary_buffer []
unfolding init_binary_buffer
init_binary_buffer-Holds = (refl, refl)
