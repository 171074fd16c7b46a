-- ===== src/Buffers/Memory.antt =====
-- Blocks of memory: what a copy and a larger block leave in the front.
use sc_open.Prelude.{
  ℕ, zero, suc, ◌+◌, ◌-◌, ◌≤◌, ◌≡◌, refl, sym, ap, ◌∙◌, none, some, List, [], ◌∷◌, ◌++◌, length,
  take, drop, replicate, append_assoc, take-append, arith, length-append, length-take, length-drop,
}
use sc_open.Buffers.{Cell, Memory, malloc, realloc, cells, memcpy}

pub length-replicate {ℓ} : {A : Type ℓ} (n : ℕ) (a : A) → length (replicate n a) ≡ n
length-replicate zero a = refl
length-replicate (suc n) a = omega (arith, length-replicate n a)

pub length-cells : (xs : List ℕ) → length (cells xs) ≡ length xs
unfolding cells
length-cells [] = refl
length-cells (x ∷ xs) = omega (arith, length-cells xs)

pub cells-append : (xs ys : List ℕ) → cells (xs ++ ys) ≡ cells xs ++ cells ys
unfolding cells
cells-append [] ys = refl
cells-append (x ∷ xs) ys = ap (λ t. some x ∷ t) (cells-append xs ys)

pub length-malloc : (n : ℕ) → length (malloc n) ≡ n
unfolding malloc
length-malloc n = length-replicate n none

pub length-realloc : (m : Memory) (n : ℕ) → length (realloc m n) ≡ n
unfolding realloc
length-realloc m n = omega (
  arith,
  length-append (take n m) (replicate (n - length m) none),
  length-take n m,
  length-replicate {A = Cell} (n - length m) none,
)

pub take-append_less {ℓ} :
    {A : Type ℓ} (xs ys : List A) (n : ℕ) → n ≤ length xs → take n (xs ++ ys) ≡ take n xs
take-append_less [] ys zero h = refl
take-append_less [] ys (suc n) h = absurd (omega arith)
take-append_less (x ∷ xs) ys zero h = refl
take-append_less (x ∷ xs) ys (suc n) h = ap (λ t. x ∷ t) (take-append_less xs ys n (omega arith))

pub take-take {ℓ} : {A : Type ℓ} (xs : List A) (n k : ℕ) → n ≤ k → take n (take k xs) ≡ take n xs
take-take xs zero k h = refl
take-take xs (suc n) zero h = absurd (omega arith)
take-take [] (suc n) (suc k) h = refl
take-take (x ∷ xs) (suc n) (suc k) h = ap (λ t. x ∷ t) (take-take xs n k (omega arith))

-- The cells in front are kept.
pub take-realloc : (m : Memory) (n i : ℕ) → i ≤ length m → i ≤ n → take i (realloc m n) ≡ take i m
unfolding realloc
take-realloc m n i h k =
    take-append_less (take n m) (replicate (n - length m) none) i (omega (arith, length-take n m))
    ∙ take-take m i n k

-- The cells of a copy stand behind those in front of it.
pub memcpy-fits :
    (m : Memory) (i : ℕ) (xs : List ℕ)
    → i + length xs ≤ length m
    → memcpy m i xs ≡ some (take i m ++ (cells xs ++ drop (i + length xs) m))
unfolding memcpy
memcpy-fits m i xs h = ground arith

pub length-memcpy :
    (m : Memory) (i : ℕ) (xs : List ℕ)
    → i + length xs ≤ length m
    → length (take i m ++ (cells xs ++ drop (i + length xs) m)) ≡ length m
length-memcpy m i xs h = omega (
  arith,
  length-append (take i m) (cells xs ++ drop (i + length xs) m),
  length-append (cells xs) (drop (i + length xs) m),
  length-take i m,
  length-cells xs,
  length-drop (i + length xs) m,
)

-- The front of a block after a copy behind some cells that hold a text.
pub take-memcpy :
    (m : Memory) (xs ys : List ℕ) (rest : Memory)
    → length xs ≤ length m
    → take (length xs) m ≡ cells xs
    → take (length ys + length xs) (take (length xs) m ++ (cells ys ++ rest)) ≡ cells (xs ++ ys)
take-memcpy m xs ys rest h e =
    ap (λ t. take (length ys + length xs) (t ++ (cells ys ++ rest))) e
    ∙ ap (take (length ys + length xs)) (sym (append_assoc (cells xs) (cells ys) rest))
    ∙ ap (λ t. take (length ys + length xs) (t ++ rest)) (sym (cells-append xs ys))
    ∙ take-append (cells (xs ++ ys)) rest (length ys + length xs)
        (omega (arith, length-cells (xs ++ ys), length-append xs ys))
