-- ===== src/Numbers/Hex.antt =====
-- my_btoh() and my_atobyte(): bytes as two hexadecimal digits.
use sc_open.Prelude.{
  ℕ, zero, suc, ◌+◌, ◌*◌, ◌/◌, ◌%◌, ◌<◌, ◌≡◌, refl, ap, ◌∙◌, Bool, true, false, ◌&&◌, some, [], ◌∷◌,
  ◌++◌, arith, ltb, ◌==◌, if◌then◌else◌,
}
use sc_open.Numbers.{
  Text, btoh_lookup, my_btoh, counted, atobyte_digits, atobyte_blanks, my_atobyte,
}
use sc_open.Numbers.Decimal.{blanks}

-- The hexadecimal digit of a number below 16.
abbrev hex : ℕ → ℕ
hex d = if ltb d 10 then b'0' + d else 55 + d

same_text : Text → Text → Bool
same_text [] [] = true
same_text (x ∷ xs) (y ∷ ys) = (x == y) && same_text xs ys
same_text xs ys = false

same_text-eq : (xs ys : Text) → same_text xs ys ≡ true → xs ≡ ys
unfolding same_text
same_text-eq [] [] h = refl
same_text-eq [] (y ∷ ys) h = cc
same_text-eq (x ∷ xs) [] h = cc
same_text-eq (x ∷ xs) (y ∷ ys) h = ground (arith, same_text-eq xs ys)

-- A test of all numbers below a bound.
all_below : ℕ → (ℕ → Bool) → Bool
all_below zero f = true
all_below (suc k) f = f k && all_below k f

all_below_lem : (k : ℕ) (f : ℕ → Bool) → all_below k f ≡ true → (n : ℕ) → n < k → f n ≡ true
unfolding all_below
all_below_lem zero f h n lt = absurd (omega arith)
all_below_lem (suc k) f h n lt = grind (arith, all_below_lem k f)

hex_of : ℕ → Text
hex_of n = hex (n / 16) ∷ hex (n % 16) ∷ []

my_btoh-all : all_below 256 (λ n. same_text (my_btoh n) (hex_of n)) ≡ true
unfolding all_below same_text my_btoh hex_of btoh_lookup
my_btoh-all = refl

my_btoh-hex : (n : ℕ) → n < 256 → my_btoh n ≡ hex (n / 16) ∷ hex (n % 16) ∷ []
unfolding hex_of
my_btoh-hex n h =
    same_text-eq (my_btoh n) (hex_of n)
      (all_below_lem 256 (λ n. same_text (my_btoh n) (hex_of n)) my_btoh-all n h)

atobyte-hex :
    (d j c1 c2 i : ℕ) (p : Text)
    → d < 16
    → i < 16
    → atobyte_digits (suc j) (hex d ∷ p) c1 c2 i ≡ atobyte_digits j p c1 (c2 + 1) (i * 16 + d)
unfolding atobyte_digits
atobyte-hex d j c1 c2 i p h k = ground arith

atobyte-blanks :
    (k d c1 : ℕ) (p : Text)
    → d < 16
    → atobyte_blanks (blanks k (hex d ∷ p)) c1 ≡ atobyte_digits 2 (hex d ∷ p) (c1 + k) 0 0
unfolding atobyte_blanks
atobyte-blanks zero d c1 p h = ground arith
atobyte-blanks (suc k) d c1 p h = grind (arith, atobyte-blanks k d (c1 + 1) p)

-- A byte that my_btoh() writes is what my_atobyte() reads, with blanks in front of it and any text
-- behind it, and the count is that of the blanks and the two digits.
pub my_atobyte-my_btoh :
    (n k : ℕ) (rest : Text)
    → n < 256
    → my_atobyte (blanks k (my_btoh n ++ rest)) ≡ record { value = n; cnt = some (k + 2) }
unfolding my_atobyte
my_atobyte-my_btoh n k rest h =
    let high : ℕ = n / 16 in
    let low : ℕ = n % 16 in
    ap (λ t. atobyte_blanks (blanks k (t ++ rest)) 0) (my_btoh-hex n h)
    ∙ atobyte-blanks k high 0 (hex low ∷ rest) (omega arith)
    ∙ atobyte-hex high 1 (0 + k) 0 0 (hex low ∷ rest) (omega arith) (omega arith)
    ∙ atobyte-hex low 0 (0 + k) 1 (0 * 16 + high) rest (omega arith) (omega arith)
    ∙ (unfold atobyte_digits counted in grind arith)
