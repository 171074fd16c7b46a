-- ===== src/Expression/Functions/Bits.antt =====
-- ITOB: the binary digits of a hexadecimal text have its value.
use sc_open.Prelude.{
  ℕ, ◌+◌, ◌-◌, ◌*◌, ◌≤◌, ◌<◌, ◌≡◌, ◌⊎◌, refl, ap, ◌∙◌, [], ◌∷◌, ◌++◌, length, leb, if◌then◌else◌,
  All, arith,
}
use sc_open.Expression.{Text}
use sc_open.Expression.Functions.{nibble, nibble_bits, itob_bits}

-- The digits 0 to 9 and A to F.
abbrev pub IsHexDigit : ℕ → Type 0
IsHexDigit c = ((b'0' ≤ c) × (c ≤ b'9')) ⊎ ((b'A' ≤ c) × (c ≤ b'F'))

abbrev pub hex_digit : ℕ → ℕ
hex_digit c = if leb c b'9' then c - b'0' else c - b'A' + 10

-- The numbers that texts of digits write, behind the digits of n.
abbrev pub hex_value : Text → ℕ → ℕ
hex_value [] n = n
hex_value (c ∷ cs) n = hex_value cs (n * 16 + hex_digit c)

abbrev pub binary_value : Text → ℕ → ℕ
binary_value [] n = n
binary_value (b ∷ bs) n = binary_value bs (n * 2 + (b - b'0'))

nibble_hex : (c : ℕ) → IsHexDigit c → (nibble c ≡ hex_digit c) × (hex_digit c < 16)
unfolding nibble
nibble_hex c h = ground arith

nibble_value :
    (v n : ℕ) (bs : Text)
    → v < 16
    → binary_value (nibble_bits v ++ bs) n ≡ binary_value bs (n * 16 + v)
unfolding nibble_bits
nibble_value v n bs h = ap (binary_value bs) (omega arith)

-- For every hexadecimal text the binary digits that ITOB() makes of it have the value of the text,
-- and there are four for each digit of the text.
pub binary_value-itob_bits :
    (cs : Text) (n : ℕ)
    → All IsHexDigit cs
    → (binary_value (itob_bits cs) n ≡ hex_value cs n) × (length (itob_bits cs) ≡ 4 * length cs)
unfolding itob_bits nibble_bits
binary_value-itob_bits [] n h = (refl, refl)
binary_value-itob_bits (c ∷ cs) n (d, h) =
    let w = nibble_hex c d in
    let rest = binary_value-itob_bits cs (n * 16 + hex_digit c) h in
    (
      nibble_value (nibble c) n (itob_bits cs) (omega (arith, w.0, w.1))
          ∙ ap (λ v. binary_value (itob_bits cs) (n * 16 + v)) w.0
          ∙ rest.0,
      omega (arith, rest.1),
    )
