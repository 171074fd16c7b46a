-- ===== src/Items/Encode/Count.antt =====
-- get_num_list_elements() counts the items in front of the '>' of their list.
use sc_open.Prelude.{
  ℕ, suc, ◌+◌, ◌-◌, ◌<◌, ◌≡◌, refl, ap, ◌∙◌, Bool, true, false, some, List, [], ◌∷◌, ◌++◌, map,
  append_assoc, arith, ◌==◌,
}
use sc_open.Numbers.{Text}
use sc_open.Program.{Token}
use sc_open.Items.Tree.{count}
use sc_open.Items.Encode.{get_num_list_elements}
use sc_open.Items.Encode.Print.{
  Values, texts, booleans, unsigneds, Sml, finish, nested, leaf, less_than, greater_than, word,
  format_text, text_token, boolean_token, number_token, value_tokens, tokens, forest,
}

module _ (nest cnt : ℕ) (more : List Token) where
  texts_elements :
      (ts : List (List ℕ))
      → get_num_list_elements nest cnt (map text_token ts ++ more)
        ≡ get_num_list_elements nest cnt more
  unfolding get_num_list_elements
  texts_elements [] = refl
  texts_elements (t ∷ ts) = texts_elements ts

  booleans_elements :
      (bs : List Bool)
      → get_num_list_elements nest cnt (map boolean_token bs ++ more)
        ≡ get_num_list_elements nest cnt more
  unfolding get_num_list_elements
  booleans_elements [] = refl
  booleans_elements (false ∷ bs) = booleans_elements bs
  booleans_elements (true ∷ bs) = booleans_elements bs

  numbers_elements :
      (ns : List ℕ)
      → get_num_list_elements nest cnt (map number_token ns ++ more)
        ≡ get_num_list_elements nest cnt more
  unfolding get_num_list_elements
  numbers_elements [] = refl
  numbers_elements (n ∷ ns) = numbers_elements ns

  -- The values of an item have no bracket.
  value_elements :
      (v : Values)
      → get_num_list_elements nest cnt (value_tokens v ++ more)
        ≡ get_num_list_elements nest cnt more
  value_elements (texts ts) = texts_elements ts
  value_elements (booleans bs) = booleans_elements bs
  value_elements (unsigneds w ns) = numbers_elements ns

-- Tokens that leave the count as it is, inside of brackets.
abbrev IsBalanced : List Token → Type 0
IsBalanced body =
    (nest cnt : ℕ) (more : List Token)
    → 0 < nest
    → get_num_list_elements nest cnt (body ++ more) ≡ get_num_list_elements nest cnt more

module _ (body : List Token) (balanced : IsBalanced body) (cnt : ℕ) (name : Text)
    (rest more : List Token) where
  inside_elements :
      (nest : ℕ)
      → 0 < nest
      → get_num_list_elements nest cnt ((body ++ greater_than ∷ rest) ++ more)
        ≡ get_num_list_elements (nest - 1) cnt (rest ++ more)
  unfolding get_num_list_elements
  inside_elements nest h =
      let busy : (nest == 0) ≡ false = ground arith in
      ap (get_num_list_elements nest cnt) (append_assoc body (greater_than ∷ rest) more)
      ∙ balanced nest cnt (greater_than ∷ (rest ++ more)) h
      ∙ rw busy refl

  item_elements :
      (nest : ℕ)
      → 0 < nest
      → get_num_list_elements nest cnt
          (less_than ∷ word name ∷ ((body ++ greater_than ∷ rest) ++ more))
        ≡ get_num_list_elements nest cnt (rest ++ more)
  unfolding get_num_list_elements
  item_elements nest h =
      let busy : (nest == 0) ≡ false = ground arith in
      let back : nest + 1 - 1 ≡ nest = omega arith in
      let inner : get_num_list_elements (nest + 1) cnt ((body ++ greater_than ∷ rest) ++ more)
          ≡ get_num_list_elements (nest + 1 - 1) cnt (rest ++ more) =
        inside_elements (nest + 1) (omega arith) in
      rw busy (inner ∙ ap (λ n. get_num_list_elements n cnt (rest ++ more)) back)

value_tokens-IsBalanced : (v : Values) → IsBalanced (value_tokens v)
value_tokens-IsBalanced v nest cnt more h = value_elements nest cnt more v

tokens-IsBalanced : (s : Sml) → IsBalanced (tokens s)
unfolding tokens
tokens-IsBalanced finish nest cnt more h = refl
tokens-IsBalanced (nested items rest) nest cnt more h =
    item_elements (tokens items) (tokens-IsBalanced items) cnt (b'L' ∷ []) (tokens rest) more nest h
    ∙ tokens-IsBalanced rest nest cnt more h
tokens-IsBalanced (leaf v rest) nest cnt more h =
    item_elements (value_tokens v) (value_tokens-IsBalanced v) cnt (format_text v) (tokens rest)
      more nest h
    ∙ tokens-IsBalanced rest nest cnt more h

count_all :
    (s : Sml) (cnt : ℕ) (more : List Token)
    → get_num_list_elements 0 cnt (tokens s ++ more)
      ≡ get_num_list_elements 0 (cnt + count (forest s)) more
unfolding tokens forest get_num_list_elements
count_all finish cnt more =
    let none_more : cnt ≡ cnt + 0 = omega arith in
    ap (λ n. get_num_list_elements 0 n more) none_more
count_all (nested items rest) cnt more =
    let one_more : cnt + 1 + count (forest rest) ≡ cnt + suc (count (forest rest)) = omega arith in
    inside_elements (tokens items) (tokens-IsBalanced items) (cnt + 1) (b'L' ∷ []) (tokens rest)
      more 1 (omega arith)
    ∙ count_all rest (cnt + 1) more
    ∙ ap (λ n. get_num_list_elements 0 n more) one_more
count_all (leaf v rest) cnt more =
    let one_more : cnt + 1 + count (forest rest) ≡ cnt + suc (count (forest rest)) = omega arith in
    inside_elements (value_tokens v) (value_tokens-IsBalanced v) (cnt + 1) (format_text v)
      (tokens rest) more 1 (omega arith)
    ∙ count_all rest (cnt + 1) more
    ∙ ap (λ n. get_num_list_elements 0 n more) one_more

pub get_num_list_elements-tokens :
    (s : Sml) (more : List Token)
    → get_num_list_elements 0 0 (tokens s ++ greater_than ∷ more) ≡ some (count (forest s))
unfolding get_num_list_elements
get_num_list_elements-tokens s more =
    let all : 0 + count (forest s) ≡ count (forest s) = omega arith in
    count_all s 0 (greater_than ∷ more) ∙ ap some all
