-- ===== src/Numbers/Signed.antt =====
-- my_itoa() and my_atoi(): decimal numbers with a sign.
use sc_open.Prelude.{
  ℕ, zero, suc, ◌+◌, ◌/◌, ◌%◌, ◌^◌, ◌≡◌, refl, sym, subst, ◌∙◌, Bool, true, false, Option, none,
  some, [], ◌∷◌, ◌++◌, length, Bool-cases, inl, inr, arith, ltb, ◌==◌, if◌then◌else◌,
}
use mathlib.Core.Option.{some-ne-none, some-injective}
use sc_open.Numbers.{
  Text, ℤ, pos, negsuc, digits, my_utoa, my_itoa, is_digit, Read, counted, signed, atoi_digits,
  atoi_sign, atoi_blanks, my_atoi,
}
use sc_open.Numbers.Decimal.{
  by_tenths, digits_more, digits_last, digits-append, digits-length_more, digits-length_last,
  digits-length_pos, digits-Starts, Starts, ends, blanks, counted_pos,
}

-- What the reader does at the end of the digits of a number: it goes on if the number is an int.
abbrev fits : ℕ → Option (Read ℤ) → Option (Read ℤ)
fits n r = if ltb n (2 ^ 31) then r else none

atoi-last :
    (n c1 c2 : ℕ) (sign : Bool) (rest : Text)
    → fits (n / 10) (atoi_digits ((b'0' + n % 10) ∷ rest) sign c1 c2 (n / 10))
      ≡ fits n (atoi_digits rest sign c1 (c2 + 1) n)
unfolding atoi_digits is_digit
atoi-last n c1 c2 sign rest = ground arith

atoi-digits :
    (n c1 c2 : ℕ) (sign : Bool) (rest : Text)
    → atoi_digits (digits n rest) sign c1 c2 0
      ≡ fits n (atoi_digits rest sign c1 (c2 + length (digits n [])) n)
atoi-digits n =
    by_tenths
      (λ n.
        (c1 c2 : ℕ) (sign : Bool) (rest : Text)
        → atoi_digits (digits n rest) sign c1 c2 0
          ≡ fits n (atoi_digits rest sign c1 (c2 + length (digits n [])) n))
      (λ n h c1 c2 sign rest.
        grind (arith, digits_last n rest, digits-length_last n, atoi-last n c1 c2 sign rest))
      (λ n h ih c1 c2 sign rest. grind (
        arith,
        digits_more n rest,
        digits-length_more n,
        atoi-last n c1 (c2 + length (digits (n / 10) [])) sign rest,
        ih c1 c2 sign ((b'0' + n % 10) ∷ rest),
      ))
      n

atoi-ends :
    (rest : Text) (sign : Bool) (c1 c2 i : ℕ)
    → ends rest ≡ true
    → atoi_digits rest sign c1 c2 i ≡ some (record { value = signed sign i; cnt = counted c1 c2 })
unfolding atoi_digits ends
atoi-ends [] sign c1 c2 i h = refl
atoi-ends (c ∷ cs) sign c1 c2 i h = ground arith

atoi-Starts : (p : Text) (c1 : ℕ) → Starts p → atoi_blanks p c1 ≡ atoi_digits p false c1 0 0
unfolding atoi_blanks atoi_sign
atoi-Starts [] c1 h = absurd h
atoi-Starts (c ∷ cs) c1 (h, k) = ground arith

atoi-minus : (p : Text) (c1 : ℕ) → atoi_blanks (b'-' ∷ p) c1 ≡ atoi_digits p true (c1 + 1) 0 0
unfolding atoi_blanks atoi_sign
atoi-minus p c1 = refl

atoi-blanks : (k : ℕ) (p : Text) (c1 : ℕ) → atoi_blanks (blanks k p) c1 ≡ atoi_blanks p (c1 + k)
unfolding atoi_blanks
atoi-blanks zero p c1 = grind arith
atoi-blanks (suc k) p c1 = grind (arith, atoi-blanks k p (c1 + 1))

abbrev pub magnitude : ℤ → ℕ
magnitude (pos n) = n
magnitude (negsuc n) = n + 1

-- What my_atoi() makes of the text of a number.
abbrev pub read_back : ℤ → (cnt : ℕ) → Option (Read ℤ)
read_back z cnt = fits (magnitude z) (some (record { value = z; cnt = some cnt }))

atoi-pos :
    (n k : ℕ) (rest : Text)
    → ends rest ≡ true
    → my_atoi (blanks k (digits n [] ++ rest)) ≡ read_back (pos n) (k + length (digits n []))
unfolding my_atoi signed
atoi-pos n k rest e =
    let bounds = counted_pos k (length (digits n [])) (digits-length_pos n) in
    grind (
      arith,
      digits-append n [] rest,
      atoi-blanks k (digits n rest) 0,
      atoi-Starts (digits n rest) k (digits-Starts n rest),
      atoi-digits n k 0 false rest,
      atoi-ends rest false k (length (digits n [])) n,
    )

atoi-negsuc :
    (n k : ℕ) (rest : Text)
    → ends rest ≡ true
    → my_atoi (blanks k (b'-' ∷ (digits (n + 1) [] ++ rest)))
      ≡ read_back (negsuc n) (k + length (b'-' ∷ digits (n + 1) []))
unfolding my_atoi
atoi-negsuc n k rest e =
    let len : ℕ = length (digits (n + 1) []) in
    let bounds = counted_pos (k + 1) len (digits-length_pos (n + 1)) in
    let sign : signed true (n + 1) ≡ negsuc n = unfold signed in grind arith in
    grind (
      arith,
      digits-append (n + 1) [] rest,
      atoi-blanks k (b'-' ∷ digits (n + 1) rest) 0,
      atoi-minus (digits (n + 1) rest) k,
      atoi-digits (n + 1) (k + 1) 0 true rest,
      atoi-ends rest true (k + 1) len (n + 1),
    )

-- What my_atoi() makes of the text that my_itoa() writes, with blanks in front of it and no digit
-- behind it: the same number and the count of the bytes up to the end of its digits if the
-- magnitude is below 2 ^ 31, and a signed overflow for every other number, though both functions
-- are for int64_t.
pub my_atoi-my_itoa :
    (z : ℤ) (text rest : Text) (k : ℕ)
    → my_itoa z ≡ some text
    → ends rest ≡ true
    → my_atoi (blanks k (text ++ rest)) ≡ read_back z (k + length text)
unfolding my_itoa my_utoa
my_atoi-my_itoa (pos n) text rest k h e =
    subst (λ t. my_atoi (blanks k (t ++ rest)) ≡ read_back (pos n) (k + length t))
      (some-injective (digits n []) text h) (atoi-pos n k rest e)
my_atoi-my_itoa (negsuc n) text rest k h e = elim (Bool-cases (n + 1 == 2 ^ 63)) [
  | inl t ↦ absurd (some-ne-none text (sym h ∙ (rw t refl)))
  | inr f ↦
      subst (λ t. my_atoi (blanks k (t ++ rest)) ≡ read_back (negsuc n) (k + length t))
        (some-injective (b'-' ∷ digits (n + 1) []) text (sym (rw f refl) ∙ h))
        (atoi-negsuc n k rest e)
]
