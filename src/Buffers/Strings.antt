-- ===== src/Buffers/Strings.antt =====
-- A text buffer is a text, or nothing before its first use.
pub mod Runs
use sc_open.Prelude.{
  ℕ, ◌+◌, ◌-◌, ◌%◌, ◌^◌, ◌≤◌, ◌<◌, ◌≡◌, ◌≢◌, refl, sym, ap, subst, ◌∙◌, true, false, Option, none,
  some, List, [], ◌∷◌, ◌++◌, length, take, drop, ltb, ◌==◌, if◌then◌else◌, arith, length-append,
  take-append, dec_lt, length-set,
}
use sc_open.Buffers.{
  Memory, malloc, realloc, cells, memcpy, max_u32, default_size, Buffer, first, copied, copy,
  bufncat, bufncpy,
}
use sc_open.Buffers.Memory.{length-malloc, take-take, length-cells, cells-append}
use sc_open.Buffers.Binary.{BlockHolds, copy-room, grow-BlockHolds, max_u32-ge}

-- A block holds a text and the NUL behind it.
abbrev pub Terminated : Memory → (index size : ℕ) → List ℕ → Type 0
Terminated m index size xs = BlockHolds m (index + 1) size (xs ++ 0 ∷ [])

abbrev pub MaybeHolds : Option Memory → (index size : ℕ) → Option (List ℕ) → Type 0
MaybeHolds none index size none = index ≡ 0
MaybeHolds none index size (some xs) = ⊥
MaybeHolds (some m) index size none = ⊥
MaybeHolds (some m) index size (some xs) = Terminated m index size xs

-- The invariant of a buffer, and the text it stands for.
abbrev pub Holds : Buffer → Option (List ℕ) → Type 0
Holds b t = MaybeHolds b.block b.index b.size t × (b.size < 2 ^ 32)

abbrev pub Gives : Option Buffer → Option (List ℕ) → Type 0
Gives r t = (b : Buffer) × (r ≡ some b) × Holds b t

-- A text with its NUL and what may be added to it is shorter than 2 ^ 32.
abbrev pub Small : List ℕ → Type 0
Small xs = default_size + length xs + 1 < 2 ^ 32

pub Terminated-BlockHolds :
    (m : Memory) (index size : ℕ) (xs : List ℕ)
    → Terminated m index size xs
    → BlockHolds m index size xs
unfolding cells
Terminated-BlockHolds m index size xs (len, le, used, front) =
    let same : index ≡ length xs = omega (arith, length-append xs (0 ∷ [])) in
    (
      len,
      omega arith,
      same,
      sym (take-take m index (index + 1) (omega arith))
          ∙ ap (take index) (front ∙ cells-append xs (0 ∷ []))
          ∙ take-append (cells xs) (cells (0 ∷ [])) index (same ∙ sym (length-cells xs)),
    )

pub copied-Gives :
    (m : Memory) (index size : ℕ) (xs ys : List ℕ)
    → BlockHolds m index size xs
    → index + length ys + 1 ≤ size
    → size < 2 ^ 32
    → Gives (copied (memcpy m index ys) (index + length ys) size) (some (xs ++ ys))
copied-Gives m index size xs ys holds room bound =
    let (e, held) = copy-room m index size xs ys holds (omega arith) in
    let one = take index m ++ (cells ys ++ drop (index + length ys) m) in
    let turn : length ys + index ≡ index + length ys = omega arith in
    let held' = subst (λ i. BlockHolds one i size (xs ++ ys)) turn held in
    let (f, after) =
      copy-room one (index + length ys) size (xs ++ ys) (0 ∷ []) held' (omega arith) in
    let two =
      take (index + length ys) one
      ++ (cells (0 ∷ []) ++ drop (index + length ys + length {A = ℕ} (0 ∷ [])) one) in
    (
      record { block = some two; index = index + length ys; size = size },
      rw (e, f) refl,
      (subst (λ i. BlockHolds two i size ((xs ++ ys) ++ 0 ∷ [])) (omega arith) after, bound),
    )

pub copy-Gives :
    (m : Memory) (index size : ℕ) (xs ys : List ℕ)
    → BlockHolds m index size xs
    → size < 2 ^ 32
    → Small (xs ++ ys)
    → Gives (copy index ys size m) (some (xs ++ ys))
unfolding copy
copy-Gives m index size xs ys holds bound small =
    let same = holds.2 in
    let lengths = length-append xs ys in
    let wraps : (index + length ys + 1) % 2 ^ 32 ≡ index + length ys + 1 = omega arith in
    let stays : (index + length ys) % 2 ^ 32 ≡ index + length ys = omega arith in
    elim (dec_lt size (index + length ys + 1)) [
      | yes less ↦
          let more : (size + default_size) % 2 ^ 32 ≡ size + default_size = omega arith in
          let short : ltb size (index + length ys + 1) ≡ true = ground arith in
          let bounds = max_u32-ge (size + default_size) (index + length ys + 1) in
          let grown : ℕ = max_u32 (size + default_size) (index + length ys + 1) in
          let top : grown < 2 ^ 32 = ground arith in
          rw (copy, wraps, stays, more, short)
            (copied-Gives (realloc m grown) index grown xs ys
              (grow-BlockHolds m index size grown xs holds (omega arith)) bounds.1 top)
      | no n ↦
          let enough : ltb size (index + length ys + 1) ≡ false = ground arith in
          rw (copy, wraps, stays, enough)
            (copied-Gives m index size xs ys holds (omega arith) bound)
    ]

-- What a buffer holds for an append: its text, or nothing.
abbrev pub text_of : Option (List ℕ) → List ℕ
text_of none = []
text_of (some xs) = xs

abbrev pub Started : Memory × ℕ → (index : ℕ) → List ℕ → Type 0
Started start index xs = BlockHolds start.0 index start.1 xs × (start.1 < 2 ^ 32)

pub new-Started :
    (size len : ℕ) → size < 2 ^ 32 → len + 1 < 2 ^ 32 → Started (first none size len) 0 []
unfolding cells
new-Started size len bound small =
    let new : ℕ = max_u32 ((len + 1) % 2 ^ 32) size in
    let top : new < 2 ^ 32 = ground arith in
    ((length-set (malloc new) 0 (some 0) ∙ length-malloc new, omega arith, refl, refl), top)

pub first-Started :
    (block : Option Memory) (index size len : ℕ) (t : Option (List ℕ))
    → MaybeHolds block index size t
    → size < 2 ^ 32
    → len + 1 < 2 ^ 32
    → Started (first block size len) index (text_of t)
first-Started none index size len none unused bound small =
    subst (λ i. Started (first none size len) i []) (sym unused) (new-Started size len bound small)
first-Started none index size len (some xs) h bound small = absurd h
first-Started (some m) index size len none h bound small = absurd h
first-Started (some m) index size len (some xs) h bound small =
    (Terminated-BlockHolds m index size xs h, bound)

pub bufncat-Gives :
    (b : Buffer) (t : Option (List ℕ)) (ys : List ℕ)
    → Holds b t
    → Small (text_of t ++ ys)
    → Gives (bufncat b ys) (some (text_of t ++ ys))
unfolding bufncat
bufncat-Gives b t ys (holds, bound) small =
    let start = first b.block b.size (length ys) in
    let lengths = length-append (text_of t) ys in
    let (held, top) =
      first-Started b.block b.index b.size (length ys) t holds bound (omega arith) in
    copy-Gives start.0 b.index start.1 (text_of t) ys held top small

pub restart-Started :
    (block : Option Memory) (index size len : ℕ) (t : Option (List ℕ))
    → MaybeHolds block index size t
    → size < 2 ^ 32
    → len + 1 < 2 ^ 32
    → Started (first block size len) 0 []
unfolding cells
restart-Started none index size len t h bound small = new-Started size len bound small
restart-Started (some m) index size len none h bound small = absurd h
restart-Started (some m) index size len (some xs) h bound small =
    ((h.0, omega arith, refl, refl), bound)

pub bufncpy-Gives :
    (b : Buffer) (t : Option (List ℕ)) (ys : List ℕ)
    → Holds b t
    → Small ys
    → Gives (bufncpy b ys) (some ys)
unfolding bufncpy bufncat
bufncpy-Gives b t ys (holds, bound) small =
    let start = first b.block b.size (length ys) in
    let (held, top) =
      restart-Started b.block b.index b.size (length ys) t holds bound (omega arith) in
    copy-Gives start.0 0 start.1 [] ys held top small
