-- ===== src/Buffers/Strings/Runs.antt =====
-- Runs of the operations on a text buffer.
use sc_open.Prelude.{
  ℕ, zero, suc, ◌+◌, ◌≡◌, ◌≢◌, refl, sym, ap, subst, ◌∙◌, false, Option, none, some, List, [], ◌∷◌,
  ◌++◌, drop, ◌==◌, arith, append_assoc, append-nil, length-append, All, All-append,
  take-append-drop,
}
use sc_open.Buffers.{
  Memory, cells, Buffer, init_buffer, buffree, bufncat, bufncpy, c_string, bufdata_string,
  with_buffer, bufprefix, nl_loop, bufnlcpy,
}
use sc_open.Buffers.Memory.{cells-append}
use sc_open.Buffers.Strings.{
  Terminated, MaybeHolds, Holds, Gives, Small, text_of, bufncat-Gives, bufncpy-Gives,
}

-- A text with no NUL in it, which a C string can be.
abbrev pub NoNul : List ℕ → Type 0
NoNul xs = All (λ c. c ≢ 0) xs

c_string-cells :
    (xs : List ℕ) (m : Memory) → NoNul xs → c_string (cells xs ++ (some 0 ∷ m)) ≡ some xs
unfolding c_string cells
c_string-cells [] m h = refl
c_string-cells (zero ∷ xs) m h = absurd (h.0 refl)
c_string-cells (suc c ∷ xs) m h = rw (c_string, c_string-cells xs m h.1) refl

c_string-Terminated :
    (m : Memory) (index size : ℕ) (xs : List ℕ)
    → NoNul xs
    → Terminated m index size xs
    → c_string m ≡ some xs
unfolding cells
c_string-Terminated m index size xs h (len, le, used, front) =
    let behind = drop (index + 1) m in
    ap c_string (
      sym (take-append-drop (index + 1) m)
      ∙ ap (λ t. t ++ behind) (front ∙ cells-append xs (0 ∷ []))
      ∙ append_assoc (cells xs) (cells (0 ∷ [])) behind)
    ∙ c_string-cells xs behind h

-- bufdata() gives the text.
bufdata-string :
    (block : Option Memory) (index size : ℕ) (xs : List ℕ)
    → NoNul xs
    → MaybeHolds block index size (some xs)
    → bufdata_string block ≡ some xs
bufdata-string none index size xs h held = absurd held
bufdata-string (some m) index size xs h held = c_string-Terminated m index size xs h held

pub init_buffer-Holds : Holds init_buffer none
unfolding init_buffer
init_buffer-Holds = (refl, omega arith)

bufprefix-Gives :
    (b : Buffer) (xs ys : List ℕ)
    → Holds b (some xs)
    → NoNul xs
    → NoNul ys
    → Small (ys ++ xs)
    → Gives (bufprefix b ys) (some (ys ++ xs))
unfolding bufprefix
bufprefix-Gives b xs ys held h k small =
    let lengths = length-append ys xs in
    let (x, e, made) = bufncpy-Gives init_buffer none ys init_buffer-Holds (omega arith) in
    let (y, f, both) = bufncat-Gives x (some ys) xs made small in
    let (c, g, after) = bufncpy-Gives b (some xs) (ys ++ xs) held small in
    let s = bufdata-string b.block b.index b.size xs h held.0 in
    let t =
      bufdata-string y.block y.index y.size (ys ++ xs) (All-append (λ c. c ≢ 0) ys xs k h) both.0 in
    (c, rw (bufprefix, e, s, f, t) g, after)

-- A text without a line end.
abbrev NoEnd : List ℕ → Type 0
NoEnd xs = All (λ c. c ≢ 10) xs

nl_loop-Gives :
    (line rest xs : List ℕ) (b : Buffer)
    → NoEnd line
    → Holds b (some xs)
    → Small (xs ++ line)
    → Gives (nl_loop (line ++ 10 ∷ rest) b) (some (xs ++ line))
unfolding nl_loop
nl_loop-Gives [] rest xs b h held small =
    (b, refl, subst (λ t. Holds b (some t)) (sym (append-nil xs)) held)
nl_loop-Gives (c ∷ cs) rest xs b h held small =
    let assoc = append_assoc xs (c ∷ []) cs in
    let lengths = length-append xs (c ∷ cs) in
    let one = length-append xs (c ∷ []) in
    let (d, e, after) = bufncat-Gives b (some xs) (c ∷ []) held (omega arith) in
    let (r, f, done) =
      nl_loop-Gives cs rest (xs ++ c ∷ []) d h.1 after (subst Small (sym assoc) small) in
    let other : (c == 10) ≡ false = ground (arith, h.0) in
    (r, rw (nl_loop, other, e) f, subst (λ t. Holds r (some t)) assoc done)

-- The operations that write a text into a buffer.
pub data Operation : Type 0 where
  cat : List ℕ → Operation
  cpy : List ℕ → Operation
  prefix : List ℕ → Operation
  nlcpy : (line rest : List ℕ) → Operation
  free : Operation

unfoldable pub perform : Buffer → Operation → Option Buffer
perform b (cat xs) = bufncat b xs
perform b (cpy xs) = bufncpy b xs
perform b (prefix xs) = bufprefix b xs
perform b (nlcpy line rest) = bufnlcpy b (line ++ 10 ∷ rest)
perform b free = some (buffree b)

-- What an operation does to the text that the buffer stands for.
unfoldable pub meaning : Option (List ℕ) → Operation → Option (List ℕ)
meaning t (cat ys) = some (text_of t ++ ys)
meaning t (cpy ys) = some ys
meaning t (prefix ys) = some (ys ++ text_of t)
meaning t (nlcpy line rest) = some line
meaning t free = none

unfoldable pub perform_all : Buffer → List Operation → Option Buffer
perform_all b [] = some b
perform_all b (o ∷ os) = with_buffer (perform b o) λ c. perform_all c os

unfoldable pub meaning_all : Option (List ℕ) → List Operation → Option (List ℕ)
meaning_all t [] = t
meaning_all t (o ∷ os) = meaning_all (meaning t o) os

-- What the operation needs: a prefix, a buffer that was written and no NUL in the texts; a line, no
-- line end in it.
abbrev pub Needs : Option (List ℕ) → Operation → Type 0
Needs t (cat ys) = Unit
Needs t (cpy ys) = Unit
Needs none (prefix ys) = ⊥
Needs (some xs) (prefix ys) = NoNul xs × NoNul ys
Needs t (nlcpy line rest) = NoEnd line
Needs t free = Unit

abbrev pub Allowed : Option (List ℕ) → List Operation → Type 0
Allowed t [] = Unit
Allowed t (o ∷ os) = Needs t o × Small (text_of (meaning t o)) × Allowed (meaning t o) os

perform-Gives :
    (o : Operation) (b : Buffer) (t : Option (List ℕ))
    → Holds b t
    → Needs t o
    → Small (text_of (meaning t o))
    → Gives (perform b o) (meaning t o)
unfolding perform meaning
perform-Gives (cat ys) b t held needs small = bufncat-Gives b t ys held small
perform-Gives (cpy ys) b t held needs small = bufncpy-Gives b t ys held small
perform-Gives (prefix ys) b none held needs small = absurd needs
perform-Gives (prefix ys) b (some xs) held needs small =
    bufprefix-Gives b xs ys held needs.0 needs.1 small
perform-Gives (nlcpy line rest) b t held needs small =
    unfold bufnlcpy in
    let (c, e, empty) = bufncpy-Gives b t [] held (omega arith) in
    let (d, f, after) = nl_loop-Gives line rest [] c needs empty small in
    (d, rw (bufnlcpy, e) f, after)
perform-Gives free b t held needs small = unfold buffree in (buffree b, refl, (refl, omega arith))

-- Every run of bufncat(), bufncpy(), bufprefix(), bufnlcpy() and buffree() on a text buffer
-- succeeds with no access outside of its block, and the buffer then holds the text that the run
-- makes of what it held, with a NUL behind it within its block, or has no block after a buffree().
-- The conditions: each text in between is more than 65 bytes shorter than 2 ^ 32, a buffer has a
-- text before a prefix is put in front of it, neither of the two has a NUL in it, and a line ends.
pub perform_all-Gives_text :
    (os : List Operation) (b : Buffer) (t : Option (List ℕ))
    → Holds b t
    → Allowed t os
    → Gives (perform_all b os) (meaning_all t os)
unfolding perform_all meaning_all
perform_all-Gives_text [] b t held allowed = (b, refl, held)
perform_all-Gives_text (o ∷ os) b t held allowed =
    let (c, e, next) = perform-Gives o b t held allowed.0 allowed.1 in
    let (d, f, after) = perform_all-Gives_text os c (meaning t o) next allowed.2 in
    (d, rw (perform_all, e) f, after)
