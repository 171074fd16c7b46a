-- ===== src/Numbers.antt =====
-- source/utility.c: numbers as texts. A text is the bytes of a C string in front of its NUL. Where
-- the source sets a count to -1 it is none here, and `none` for a whole result means that the C
-- standard gives the run no meaning (a signed overflow). The counts are int, for texts of fewer
-- than 2 ^ 31 bytes. A result is a static buffer in the source, which the next call overwrites.
pub mod Decimal
pub mod Signed
pub mod Hex
pub mod Int
mod Tests
use mathlib.Core.Logic.{dite}
use mathlib.Core.WellFounded.{Acc}
use sc_open.Prelude.{
  ℕ, zero, suc, ◌+◌, ◌-◌, ◌*◌, ◌/◌, ◌%◌, ◌^◌, ◌<◌, ◌≡◌, Bool, true, false, ◌&&◌, not, Option, none,
  some, List, [], ◌∷◌, ◌++◌, get_or, arith, dec_lt, ltb, leb, ◌==◌, if◌then◌else◌,
}

abbrev pub Text : Type 0
Text = List ℕ

-- int64_t
pub data ℤ : Type 0 where
  pos : ℕ → ℤ
  negsuc : ℕ → ℤ

acc_below : (k n : ℕ) → n < k → Acc ◌<◌ n
acc_below zero n h = absurd (omega arith)
acc_below (suc k) n h = Acc.intro n λ m lt. acc_below k m (omega arith)

unfoldable pub lt_acc : (n : ℕ) → Acc ◌<◌ n
unfolding acc_below
lt_acc n = acc_below (suc n) n (omega arith)

pub tenth_lt : {n : ℕ} → 0 < n / 10 → n / 10 < n
tenth_lt h = omega arith

-- do { *--p = num % 10 + '0'; num /= 10; } while (num)
unfoldable pub put_digits : (num : ℕ) → Acc ◌<◌ num → Text → Text
put_digits num (Acc.intro _ smaller) p =
    let stored = (b'0' + num % 10) ∷ p in
    dite (dec_lt 0 (num / 10)) (λ h. put_digits (num / 10) (smaller (num / 10) (tenth_lt h)) stored)
      (λ _. stored)

unfoldable pub digits : ℕ → Text → Text
digits num p = put_digits num (lt_acc num) p

unfoldable pub my_utoa : ℕ → Text
my_utoa num = digits num []

-- my_itoa(): the most negative number overflows when its sign is changed.
unfoldable pub my_itoa : ℤ → Option Text
my_itoa (pos n) = some (my_utoa n)
my_itoa (negsuc n) = if n + 1 == 2 ^ 63 then none else some (b'-' ∷ my_utoa (n + 1))

unfoldable pub is_digit : ℕ → Bool
is_digit c = leb b'0' c && leb c b'9'

pub record Read (A : Type 0) : Type 0 where
  pub value : A
  pub cnt : Option ℕ

-- What the readers say of the bytes used: c1 for the blanks, c2 for the digits.
unfoldable pub counted : (c1 c2 : ℕ) → Option ℕ
counted c1 zero = none
counted c1 (suc c2) = some (c1 + suc c2)

-- my_atou(), its second loop.
unfoldable pub atou_digits : Text → (c1 c2 i : ℕ) → Read ℕ
atou_digits [] c1 c2 i = record { value = i; cnt = counted c1 c2 }
atou_digits (c ∷ cs) c1 c2 i =
    let rest = atou_digits cs c1 (c2 + 1) ((i * 10 + (c - b'0')) % 2 ^ 64) in
    if is_digit c then rest else record { value = i; cnt = counted c1 c2 }

unfoldable pub atou_blanks : Text → ℕ → Read ℕ
atou_blanks [] c1 = atou_digits [] c1 0 0
atou_blanks (c ∷ cs) c1 =
    let rest = atou_blanks cs (c1 + 1) in if c == b' ' then rest else atou_digits (c ∷ cs) c1 0 0

unfoldable pub my_atou : Text → Read ℕ
my_atou p = atou_blanks p 0

-- `i = -i` if there was a sign.
unfoldable pub signed : Bool → ℕ → ℤ
signed false i = pos i
signed true zero = pos 0
signed true (suc i) = negsuc i

-- my_atoi(), its last loop, on an int of 32 bits.
unfoldable pub atoi_digits : Text → Bool → (c1 c2 i : ℕ) → Option (Read ℤ)
atoi_digits [] sign c1 c2 i = some (record { value = signed sign i; cnt = counted c1 c2 })
atoi_digits (c ∷ cs) sign c1 c2 i =
    let next = i * 10 + (c - b'0') in
    let rest = atoi_digits cs sign c1 (c2 + 1) next in
    if not (is_digit c)
    then some (record { value = signed sign i; cnt = counted c1 c2 })
    else if ltb next (2 ^ 31)
    then rest
    else none

unfoldable pub atoi_sign : Text → ℕ → Option (Read ℤ)
atoi_sign [] c1 = atoi_digits [] false c1 0 0
atoi_sign (c ∷ cs) c1 =
    if c == b'-' then atoi_digits cs true (c1 + 1) 0 0 else atoi_digits (c ∷ cs) false c1 0 0

unfoldable pub atoi_blanks : Text → ℕ → Option (Read ℤ)
atoi_blanks [] c1 = atoi_sign [] c1
atoi_blanks (c ∷ cs) c1 =
    let rest = atoi_blanks cs (c1 + 1) in if c == b' ' then rest else atoi_sign (c ∷ cs) c1

unfoldable pub my_atoi : Text → Option (Read ℤ)
my_atoi p = atoi_blanks p 0

-- A row of btoh_lookup: the sixteen texts that start with a byte.
abbrev hex_row : ℕ → List Text
hex_row h =
    (h ∷ b'0' ∷ [])
    ∷ (h ∷ b'1' ∷ [])
    ∷ (h ∷ b'2' ∷ [])
    ∷ (h ∷ b'3' ∷ [])
    ∷ (h ∷ b'4' ∷ [])
    ∷ (h ∷ b'5' ∷ [])
    ∷ (h ∷ b'6' ∷ [])
    ∷ (h ∷ b'7' ∷ [])
    ∷ (h ∷ b'8' ∷ [])
    ∷ (h ∷ b'9' ∷ [])
    ∷ (h ∷ b'A' ∷ [])
    ∷ (h ∷ b'B' ∷ [])
    ∷ (h ∷ b'C' ∷ [])
    ∷ (h ∷ b'D' ∷ [])
    ∷ (h ∷ b'E' ∷ [])
    ∷ (h ∷ b'F' ∷ [])
    ∷ []

unfoldable pub btoh_lookup : List Text
btoh_lookup =
    hex_row b'0'
    ++ hex_row b'1'
    ++ hex_row b'2'
    ++ hex_row b'3'
    ++ hex_row b'4'
    ++ hex_row b'5'
    ++ hex_row b'6'
    ++ hex_row b'7'
    ++ hex_row b'8'
    ++ hex_row b'9'
    ++ hex_row b'A'
    ++ hex_row b'B'
    ++ hex_row b'C'
    ++ hex_row b'D'
    ++ hex_row b'E'
    ++ hex_row b'F'

unfoldable pub my_btoh : ℕ → Text
my_btoh num = get_or btoh_lookup num []

-- my_atobyte(), its loop, on a uint8_t: `j` digits are still to come.
unfoldable pub atobyte_digits : ℕ → Text → (c1 c2 i : ℕ) → Read ℕ
atobyte_digits zero p c1 c2 i = record { value = i; cnt = counted c1 c2 }
atobyte_digits (suc j) [] c1 c2 i = record { value = i; cnt = counted c1 c2 }
atobyte_digits (suc j) (c ∷ cs) c1 c2 i =
    let decimal = atobyte_digits j cs c1 (c2 + 1) ((i * 16 + (c - b'0')) % 2 ^ 8) in
    let letter = atobyte_digits j cs c1 (c2 + 1) ((i * 16 + (c - 55)) % 2 ^ 8) in
    if leb b'0' c && leb c b'9'
    then decimal
    else if leb b'A' c && leb c b'F'
    then letter
    else record { value = i; cnt = counted c1 c2 }

unfoldable pub atobyte_blanks : Text → ℕ → Read ℕ
atobyte_blanks [] c1 = atobyte_digits 2 [] c1 0 0
atobyte_blanks (c ∷ cs) c1 =
    let rest = atobyte_blanks cs (c1 + 1) in
    if c == b' ' then rest else atobyte_digits 2 (c ∷ cs) c1 0 0

unfoldable pub my_atobyte : Text → Read ℕ
my_atobyte p = atobyte_blanks p 0
