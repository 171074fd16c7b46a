-- ===== src/Items/Encode/Values.antt =====
-- The values of an item are stored as they are written.
use sc_open.Prelude.{
  ℕ, zero, suc, ◌+◌, ◌-◌, ◌*◌, ◌%◌, ◌^◌, ◌<◌, ◌≤◌, ◌≡◌, refl, ap, sym, ◌∙◌, Bool, true, false, some,
  List, [], ◌∷◌, ◌++◌, map, length, append-nil, arith, All,
}
use sc_open.Bytes.{to_wire}
use sc_open.Numbers.{Text, digits, my_utoa, my_atou}
use sc_open.Numbers.Decimal.{
  by_tenths, digits_more, digits_last, digits-length_pos, ends, my_atou-my_utoa,
}
use sc_open.Program.{Token}
use sc_open.Items.Format.{Width, one, two, four, eight, width, Format, ascii, boolean, unsigned}
use sc_open.Items.Elements.{
  c_string, element, and_more, after_element, elements, stored, boolean_of, opens_negative,
  token_data, item_data,
}
use sc_open.Items.Encode.Print.{
  Values, texts, booleans, unsigneds, greater_than, text_token, boolean_token, number_token,
  value_tokens, format, boolean_byte, all_text, all_wire, value_bytes, IsInRange,
}

c_string-digits : (n : ℕ) (p : Text) → c_string p ≡ p → c_string (digits n p) ≡ digits n p
unfolding c_string
c_string-digits =
    by_tenths (λ n. (p : Text) → c_string p ≡ p → c_string (digits n p) ≡ digits n p)
      (λ n h p e. grind (arith, digits_last n p h))
      (λ n h ih p e. grind (arith, digits_more n p h, ih ((b'0' + n % 10) ∷ p)))

-- What is still to pass covers the text.
elements_passed :
    (f : Format) (p : Text) (skip : ℕ) → length p ≤ skip → elements f p skip ≡ some ([], true)
unfolding elements
elements_passed f [] skip h = refl
elements_passed f (c ∷ cs) zero h = absurd (omega arith)
elements_passed f (c ∷ cs) (suc skip) h = elements_passed f cs skip (omega arith)

-- A text that is one element.
elements_one :
    (f : Format) (p bytes : List ℕ)
    → 0 < length p
    → element f p ≡ some (record { value = bytes; cnt = some (length p) })
    → elements f p 0 ≡ some (bytes, true)
unfolding elements
elements_one f [] bytes some_left e = absurd (omega arith)
elements_one f (c ∷ cs) bytes some_left e =
    ap (λ r. after_element r (λ cnt. elements f cs (cnt - 1))) e
    ∙ ap (and_more bytes) (elements_passed f cs (suc (length cs) - 1) (omega arith))
    ∙ ap (λ b. some (b, true)) (append-nil bytes)

range_64 : (w : Width) (n : ℕ) → n < 2 ^ (8 * width w) → n < 2 ^ 64
range_64 one n h = omega arith
range_64 two n h = omega arith
range_64 four n h = omega arith
range_64 eight n h = h

cast_small : (w : Width) (n : ℕ) → n < 2 ^ (8 * width w) → n % 2 ^ (8 * width w) ≡ n
cast_small one n h = omega arith
cast_small two n h = omega arith
cast_small four n h = omega arith
cast_small eight n h = omega arith

elements-my_utoa :
    (w : Width) (n : ℕ)
    → n < 2 ^ (8 * width w)
    → elements (unsigned w) (c_string (my_utoa n)) 0 ≡ some (to_wire (width w) n, true)
unfolding element my_utoa ends c_string
elements-my_utoa w n small =
    let read : my_atou (my_utoa n) ≡ record { value = n; cnt = some (0 + length (my_utoa n)) } =
      ap my_atou (sym (append-nil (my_utoa n)))
      ∙ my_atou-my_utoa n 0 [] (range_64 w n small) refl in
    let plain : 0 + length (my_utoa n) ≡ length (my_utoa n) = omega arith in
    ap (λ p. elements (unsigned w) p 0) (c_string-digits n [] refl)
    ∙ elements_one (unsigned w) (my_utoa n) (to_wire (width w) n) (digits-length_pos n) (
        ap
          (λ r.
            some (record { value = to_wire (width w) (r.value % 2 ^ (8 * width w)); cnt = r.cnt }))
          read
        ∙ ap
            (λ v.
              some (record { value = to_wire (width w) v; cnt = some (0 + length (my_utoa n)) }))
            (cast_small w n small)
        ∙ ap (λ l. some (record { value = to_wire (width w) n; cnt = some l })) plain)

module _ (more : List Token) where
  texts_data :
      (ts : List Text)
      → item_data ascii false (map text_token ts ++ greater_than ∷ more)
        ≡ stored true (all_text ts) (greater_than ∷ more)
  unfolding item_data token_data opens_negative
  texts_data [] = refl
  texts_data (t ∷ ts) = rw (texts_data ts) refl

  booleans_data :
      (bs : List Bool)
      → item_data boolean false (map boolean_token bs ++ greater_than ∷ more)
        ≡ stored true (map boolean_byte bs) (greater_than ∷ more)
  unfolding item_data token_data opens_negative boolean_of
  booleans_data [] = refl
  booleans_data (false ∷ bs) = rw (booleans_data bs) refl
  booleans_data (true ∷ bs) = rw (booleans_data bs) refl

  unsigneds_data :
      (w : Width) (ns : List ℕ)
      → All (λ n. n < 2 ^ (8 * width w)) ns
      → item_data (unsigned w) false (map number_token ns ++ greater_than ∷ more)
        ≡ stored true (all_wire w ns) (greater_than ∷ more)
  unfolding item_data token_data opens_negative
  unsigneds_data w [] h = refl
  unsigneds_data w (n ∷ ns) (small, h) =
      rw (unsigneds_data w ns h) (rw (elements-my_utoa w n small) refl)

  -- The tokens of values in their range, up to the '>' behind them.
  pub item_data-value_tokens :
      (v : Values)
      → IsInRange v
      → item_data (format v) false (value_tokens v ++ greater_than ∷ more)
        ≡ stored true (value_bytes v) (greater_than ∷ more)
  item_data-value_tokens (texts ts) h = texts_data ts
  item_data-value_tokens (booleans bs) h = booleans_data bs
  item_data-value_tokens (unsigneds w ns) h = unsigneds_data w ns h
