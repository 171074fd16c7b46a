-- ===== src/Numbers/Decimal.antt =====
-- my_utoa() and my_atou(): decimal numbers without a sign.
use mathlib.Core.WellFounded.{Acc, Acc-prop}
use mathlib.Core.Logic.{ite, dite}
use sc_open.Prelude.{
  ℕ, zero, suc, ◌+◌, ◌/◌, ◌%◌, ◌^◌, ◌<◌, ◌≤◌, ◌≡◌, refl, sym, ap, subst, ◌∙◌, Bool, true, false,
  some, [], ◌∷◌, ◌++◌, length, replicate, arith, dec_lt, if◌then◌else◌, length-append,
}
use sc_open.Numbers.{
  Text, lt_acc, tenth_lt, put_digits, digits, my_utoa, is_digit, counted, atou_digits, atou_blanks,
  my_atou,
}

-- A round of the loop, whatever the proof that it ends.
round :
    (n : ℕ) (w : Acc ◌<◌ n) (v : Acc ◌<◌ (n / 10)) (p : Text)
    → let stored = (b'0' + n % 10) ∷ p in
      put_digits n w p ≡ ite (dec_lt 0 (n / 10)) (put_digits (n / 10) v stored) stored
unfolding put_digits
round n (Acc.intro _ smaller) v p =
    let stored : Text = (b'0' + n % 10) ∷ p in
    λ i.
      dite (dec_lt 0 (n / 10))
        (λ h. put_digits (n / 10) (Acc-prop (smaller (n / 10) (tenth_lt h)) v i) stored)
        (λ _. stored)

pub digits-round :
    (n : ℕ) (p : Text)
    → digits n p
      ≡ ite (dec_lt 0 (n / 10)) (digits (n / 10) ((b'0' + n % 10) ∷ p)) ((b'0' + n % 10) ∷ p)
unfolding digits
digits-round n p = round n (lt_acc n) (lt_acc (n / 10)) p

-- By induction on the rounds: a number has one round, or one more than its tenth.
pub by_tenths {ℓ} :
    (C : ℕ → Type ℓ)
    → ((n : ℕ) → n / 10 ≡ 0 → C n)
    → ((n : ℕ) → 0 < n / 10 → C (n / 10) → C n)
    → (n : ℕ) → C n
by_tenths C last more n = go n (lt_acc n)
  where
    go : (n : ℕ) → Acc ◌<◌ n → C n
    go n (Acc.intro _ smaller) = elim (dec_lt 0 (n / 10)) [
      | yes h ↦ more n h (go (n / 10) (smaller (n / 10) (tenth_lt h)))
      | no h ↦ last n (omega arith)
    ]

-- The digits are put in front of what is there.
pub digits-append : (n : ℕ) (p rest : Text) → digits n (p ++ rest) ≡ digits n p ++ rest
digits-append =
    by_tenths (λ n. (p rest : Text) → digits n (p ++ rest) ≡ digits n p ++ rest)
      (λ n h p rest. grind (arith, digits-round n (p ++ rest), digits-round n p))
      (λ n h ih p rest.
        grind (arith, digits-round n (p ++ rest), digits-round n p, ih ((b'0' + n % 10) ∷ p) rest))

pub digits-length : (n : ℕ) (p : Text) → length (digits n p) ≡ length (digits n []) + length p
digits-length n p = ap length (digits-append n [] p) ∙ length-append (digits n []) p

pub digits-length_more :
    (n : ℕ) → 0 < n / 10 → length (digits n []) ≡ length (digits (n / 10) []) + 1
digits-length_more n h =
    let more = digits-length (n / 10) ((b'0' + n % 10) ∷ []) in
    grind (arith, digits-round n [], more)

pub digits-length_last : (n : ℕ) → n / 10 ≡ 0 → length (digits n []) ≡ 1
digits-length_last n h = grind (arith, digits-round n [])

pub digits_more :
    (n : ℕ) (p : Text) → 0 < n / 10 → digits n p ≡ digits (n / 10) ((b'0' + n % 10) ∷ p)
digits_more n p h = grind (arith, digits-round n p)

pub digits_last : (n : ℕ) (p : Text) → n / 10 ≡ 0 → digits n p ≡ (b'0' + n % 10) ∷ p
digits_last n p h = grind (arith, digits-round n p)

-- A text whose first byte is no digit.
unfoldable pub ends : Text → Bool
ends [] = true
ends (c ∷ cs) = if is_digit c then false else true

atou-last :
    (n c1 c2 : ℕ) (rest : Text)
    → n < 2 ^ 64
    → atou_digits ((b'0' + n % 10) ∷ rest) c1 c2 (n / 10) ≡ atou_digits rest c1 (c2 + 1) n
unfolding atou_digits is_digit
atou-last n c1 c2 rest h = ground arith

-- The digits of a number are read as the number.
atou-digits :
    (n c1 c2 : ℕ) (rest : Text)
    → n < 2 ^ 64
    → atou_digits (digits n rest) c1 c2 0 ≡ atou_digits rest c1 (c2 + length (digits n [])) n
atou-digits n =
    by_tenths
      (λ n.
        (c1 c2 : ℕ) (rest : Text)
        → n < 2 ^ 64
        → atou_digits (digits n rest) c1 c2 0 ≡ atou_digits rest c1 (c2 + length (digits n [])) n)
      (λ n h c1 c2 rest lt.
        grind (arith, digits_last n rest, digits-length_last n, atou-last n c1 c2 rest))
      (λ n h ih c1 c2 rest lt. grind (
        arith,
        digits_more n rest,
        digits-length_more n,
        atou-last n c1 (c2 + length (digits (n / 10) [])) rest,
        ih c1 c2 ((b'0' + n % 10) ∷ rest),
      ))
      n

atou-ends :
    (rest : Text) (c1 c2 i : ℕ)
    → ends rest ≡ true
    → atou_digits rest c1 c2 i ≡ record { value = i; cnt = counted c1 c2 }
unfolding atou_digits ends
atou-ends [] c1 c2 i h = refl
atou-ends (c ∷ cs) c1 c2 i h = ground arith

-- The digits start with a digit.
abbrev pub Starts : Text → Type 0
Starts [] = ⊥
Starts (c ∷ cs) = (b'0' ≤ c) × (c ≤ b'9')

pub digits-Starts : (n : ℕ) (p : Text) → Starts (digits n p)
digits-Starts =
    by_tenths (λ n. (p : Text) → Starts (digits n p))
      (λ n h p. subst Starts (sym (digits_last n p h)) (omega arith, omega arith))
      (λ n h ih p. subst Starts (sym (digits_more n p h)) (ih ((b'0' + n % 10) ∷ p)))

abbrev pub blanks : ℕ → Text → Text
blanks k p = replicate k b' ' ++ p

atou-Starts : (p : Text) (c1 : ℕ) → Starts p → atou_blanks p c1 ≡ atou_digits p c1 0 0
unfolding atou_blanks
atou-Starts [] c1 h = absurd h
atou-Starts (c ∷ cs) c1 (h, k) = ground arith

atou-blanks :
    (k : ℕ) (p : Text) (c1 : ℕ)
    → Starts p
    → atou_blanks (blanks k p) c1 ≡ atou_digits p (c1 + k) 0 0
unfolding atou_blanks
atou-blanks zero p c1 h = grind (arith, atou-Starts p c1)
atou-blanks (suc k) p c1 h = grind (arith, atou-blanks k p (c1 + 1))

pub digits-length_pos : (n : ℕ) → 0 < length (digits n [])
digits-length_pos =
    by_tenths (λ n. 0 < length (digits n [])) (λ n h. omega (arith, digits-length_last n h))
      (λ n h ih. omega (arith, digits-length_more n h))

pub counted_pos : (c1 c2 : ℕ) → 0 < c2 → counted c1 c2 ≡ some (c1 + c2)
unfolding counted
counted_pos c1 zero h = absurd (omega arith)
counted_pos c1 (suc c2) h = refl

-- A uint64_t that my_utoa() writes is what my_atou() reads, with blanks in front of it and no
-- digit behind it, and the count is that of the bytes up to the end of its digits.
pub my_atou-my_utoa :
    (n k : ℕ) (rest : Text)
    → n < 2 ^ 64
    → ends rest ≡ true
    → my_atou (blanks k (my_utoa n ++ rest))
      ≡ record { value = n; cnt = some (k + length (my_utoa n)) }
unfolding my_atou my_utoa
my_atou-my_utoa n k rest h e =
    let bounds = counted_pos k (length (digits n [])) (digits-length_pos n) in
    grind (
      arith,
      digits-append n [] rest,
      atou-blanks k (digits n rest) 0 (digits-Starts n rest),
      atou-digits n k 0 rest,
      atou-ends rest k (length (digits n [])) n,
    )
