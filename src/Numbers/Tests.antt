-- ===== src/Numbers/Tests.antt =====
-- The conversions of numbers at small inputs.
use sc_open.Prelude.{◌≡◌, refl, some, [], ◌∷◌, dec_lt}
use sc_open.Numbers.{negsuc, put_digits, digits, lt_acc, my_utoa, my_itoa, my_atoi}
use sc_open.Numbers.Decimal.{ends, blanks}
use sc_open.Numbers.Signed.{read_back, my_atoi-my_itoa}

my_utoa_304 : my_utoa 304 ≡ b'3' ∷ b'0' ∷ b'4' ∷ []
unfolding my_utoa digits put_digits lt_acc dec_lt
my_utoa_304 = refl

minus_seven : my_itoa (negsuc 6) ≡ some (b'-' ∷ b'7' ∷ [])
unfolding my_itoa my_utoa digits put_digits lt_acc dec_lt
minus_seven = refl

my_atoi-my_itoa_example : my_atoi (blanks 1 (b'-' ∷ b'7' ∷ [])) ≡ read_back (negsuc 6) 3
my_atoi-my_itoa_example =
    my_atoi-my_itoa (negsuc 6) (b'-' ∷ b'7' ∷ []) [] 1 minus_seven (unfold ends in refl)
