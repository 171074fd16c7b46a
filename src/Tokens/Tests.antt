-- ===== src/Tokens/Tests.antt =====
-- The types of small tokens.
use sc_open.Prelude.{true, ◌≡◌, refl, some, [], ◌∷◌}
use sc_open.Tokens.{Text, upper_token, run_token, run, find, matches, same_text, initial}
use sc_open.Tokens.Kinds.{tt_swap}
use sc_open.Tokens.Functions.{function_branches, get_token_type_function}
use sc_open.Tokens.Keywords.{get_token_type}
use sc_open.Tokens.Flat.{search_all, function_words, keyword_words, get_token_type-search_all}
use sc_open.Tokens.Printed.{ascii_upper, Outcome, show_type-get_type}

abbrev swap : Text
swap = b's' ∷ b'W' ∷ b'a' ∷ b'p' ∷ []

abbrev upper_swap : Text
upper_swap = b'S' ∷ b'W' ∷ b'A' ∷ b'P' ∷ []

get_token_type-search_all_example :
    (get_token_type ascii_upper swap ≡ search_all keyword_words (upper_token ascii_upper swap))
    × (get_token_type_function ascii_upper swap
        ≡ search_all function_words (upper_token ascii_upper swap))
get_token_type-search_all_example = get_token_type-search_all ascii_upper swap

swap_type : get_token_type_function ascii_upper swap ≡ some tt_swap
unfolding get_token_type_function function_branches run_token run find matches same_text initial
    upper_token ascii_upper
swap_type = refl

show_type-get_type_example : Outcome true upper_swap tt_swap
show_type-get_type_example =
    show_type-get_type true ascii_upper swap upper_swap tt_swap
      (unfold upper_token ascii_upper in refl) swap_type
