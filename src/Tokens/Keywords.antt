-- ===== src/Tokens/Keywords.antt =====
-- source/tokens.c, get_token_type(): the keywords and operators, a list for each branch.
use sc_open.Prelude.{ℕ, Option, List, [], ◌∷◌, ◌++◌}
use sc_open.Tokens.{Text, exact, prefix, Words, Branch, group, word, upper_token, run_token}
use sc_open.Tokens.Kinds.{
  TokenType, tt_logical_and, tt_after, tt_break, tt_break_loop, tt_begin, tt_close, tt_continue,
  tt_define, tt_define_array, tt_define_xref, tt_delete, tt_end, tt_str_equal, tt_else, tt_else_if,
  tt_error, tt_end_if, tt_end_while, tt_exit, tt_for, tt_gosub, tt_goto, tt_glet, tt_if, tt_let,
  tt_label, tt_local_var, tt_str_not_equal, tt_no_error, tt_next, tt_open, tt_logical_or, tt_pragma,
  tt_print, tt_return, tt_send, tt_send_reply, tt_sleep, tt_start_timer, tt_step, tt_stop_timer,
  tt_set_program, tt_to, tt_then, tt_while, tt_less_than, tt_greater_than, tt_assign, tt_bang,
  tt_less_than_equal, tt_greater_than_equal, tt_equal, tt_not_equal, tt_open_paren, tt_close_paren,
  tt_comma, tt_minus, tt_unary_ones_complement, tt_plus, tt_divide, tt_mult, tt_bitwise_or,
  tt_bitwise_xor, tt_bitwise_and, tt_period, tt_colon, tt_esc, tt_x,
}

abbrev keyword_a : Words
keyword_a =
    (exact (b'A' ∷ b'N' ∷ b'D' ∷ []), tt_logical_and)
    ∷ (exact (b'A' ∷ b'F' ∷ b'T' ∷ b'E' ∷ b'R' ∷ []), tt_after)
    ∷ []

abbrev keyword_b : Words
keyword_b =
    (exact (b'B' ∷ b'R' ∷ b'E' ∷ b'A' ∷ b'K' ∷ []), tt_break)
    ∷ (
      exact (b'B' ∷ b'R' ∷ b'E' ∷ b'A' ∷ b'K' ∷ b'_' ∷ b'L' ∷ b'O' ∷ b'O' ∷ b'P' ∷ []),
      tt_break_loop,
    )
    ∷ (exact (b'B' ∷ b'E' ∷ b'G' ∷ b'I' ∷ b'N' ∷ []), tt_begin)
    ∷ []

abbrev keyword_c : Words
keyword_c =
    (exact (b'C' ∷ b'L' ∷ b'O' ∷ b'S' ∷ b'E' ∷ []), tt_close)
    ∷ (exact (b'C' ∷ b'O' ∷ b'N' ∷ b'T' ∷ b'I' ∷ b'N' ∷ b'U' ∷ b'E' ∷ []), tt_continue)
    ∷ []

abbrev keyword_d : Words
keyword_d =
    (exact (b'D' ∷ b'E' ∷ b'F' ∷ b'I' ∷ b'N' ∷ b'E' ∷ []), tt_define)
    ∷ (
      exact
          (b'D' ∷ b'E' ∷ b'F' ∷ b'I' ∷ b'N' ∷ b'E' ∷ b'_' ∷ b'A' ∷ b'R' ∷ b'R' ∷ b'A' ∷ b'Y' ∷ []),
      tt_define_array,
    )
    ∷ (
      exact (b'D' ∷ b'E' ∷ b'F' ∷ b'I' ∷ b'N' ∷ b'E' ∷ b'_' ∷ b'X' ∷ b'R' ∷ b'E' ∷ b'F' ∷ []),
      tt_define_xref,
    )
    ∷ (exact (b'D' ∷ b'E' ∷ b'L' ∷ b'E' ∷ b'T' ∷ b'E' ∷ []), tt_delete)
    ∷ []

abbrev keyword_e : Words
keyword_e =
    (exact (b'E' ∷ b'N' ∷ b'D' ∷ []), tt_end)
    ∷ (exact (b'E' ∷ b'Q' ∷ []), tt_str_equal)
    ∷ (exact (b'E' ∷ b'L' ∷ b'S' ∷ b'E' ∷ []), tt_else)
    ∷ (exact (b'E' ∷ b'L' ∷ b'S' ∷ b'E' ∷ b'_' ∷ b'I' ∷ b'F' ∷ []), tt_else_if)
    ∷ (exact (b'E' ∷ b'R' ∷ b'R' ∷ b'O' ∷ b'R' ∷ []), tt_error)
    ∷ (exact (b'E' ∷ b'N' ∷ b'D' ∷ b'_' ∷ b'I' ∷ b'F' ∷ []), tt_end_if)
    ∷ (exact (b'E' ∷ b'N' ∷ b'D' ∷ b'_' ∷ b'W' ∷ b'H' ∷ b'I' ∷ b'L' ∷ b'E' ∷ []), tt_end_while)
    ∷ (exact (b'E' ∷ b'X' ∷ b'I' ∷ b'T' ∷ []), tt_exit)
    ∷ []

abbrev keyword_words_1 : List Branch
keyword_words_1 = word (exact (b'F' ∷ b'O' ∷ b'R' ∷ [])) tt_for ∷ []

abbrev keyword_g : Words
keyword_g =
    (exact (b'G' ∷ b'O' ∷ b'S' ∷ b'U' ∷ b'B' ∷ []), tt_gosub)
    ∷ (exact (b'G' ∷ b'O' ∷ b'T' ∷ b'O' ∷ []), tt_goto)
    ∷ (exact (b'G' ∷ b'L' ∷ b'E' ∷ b'T' ∷ []), tt_glet)
    ∷ []

abbrev keyword_words_2 : List Branch
keyword_words_2 = word (exact (b'I' ∷ b'F' ∷ [])) tt_if ∷ []

abbrev keyword_l : Words
keyword_l =
    (exact (b'L' ∷ b'E' ∷ b'T' ∷ []), tt_let)
    ∷ (exact (b'L' ∷ b'A' ∷ b'B' ∷ b'E' ∷ b'L' ∷ []), tt_label)
    ∷ (exact (b'L' ∷ b'O' ∷ b'C' ∷ b'A' ∷ b'L' ∷ b'_' ∷ b'V' ∷ b'A' ∷ b'R' ∷ []), tt_local_var)
    ∷ []

abbrev keyword_n : Words
keyword_n =
    (exact (b'N' ∷ b'E' ∷ []), tt_str_not_equal)
    ∷ (exact (b'N' ∷ b'O' ∷ b'_' ∷ b'E' ∷ b'R' ∷ b'R' ∷ b'O' ∷ b'R' ∷ []), tt_no_error)
    ∷ (exact (b'N' ∷ b'E' ∷ b'X' ∷ b'T' ∷ []), tt_next)
    ∷ []

abbrev keyword_words_3 : List Branch
keyword_words_3 =
    word (exact (b'O' ∷ b'P' ∷ b'E' ∷ b'N' ∷ [])) tt_open
    ∷ word (exact (b'O' ∷ b'R' ∷ [])) tt_logical_or
    ∷ word (exact (b'P' ∷ b'R' ∷ b'A' ∷ b'G' ∷ b'M' ∷ b'A' ∷ [])) tt_pragma
    ∷ word (exact (b'P' ∷ b'R' ∷ b'I' ∷ b'N' ∷ b'T' ∷ [])) tt_print
    ∷ word (exact (b'R' ∷ b'E' ∷ b'T' ∷ b'U' ∷ b'R' ∷ b'N' ∷ [])) tt_return
    ∷ []

abbrev keyword_s : Words
keyword_s =
    (exact (b'S' ∷ b'E' ∷ b'N' ∷ b'D' ∷ []), tt_send)
    ∷ (
      exact (b'S' ∷ b'E' ∷ b'N' ∷ b'D' ∷ b'_' ∷ b'R' ∷ b'E' ∷ b'P' ∷ b'L' ∷ b'Y' ∷ []),
      tt_send_reply,
    )
    ∷ (exact (b'S' ∷ b'L' ∷ b'E' ∷ b'E' ∷ b'P' ∷ []), tt_sleep)
    ∷ (
      exact (b'S' ∷ b'T' ∷ b'A' ∷ b'R' ∷ b'T' ∷ b'_' ∷ b'T' ∷ b'I' ∷ b'M' ∷ b'E' ∷ b'R' ∷ []),
      tt_start_timer,
    )
    ∷ (exact (b'S' ∷ b'T' ∷ b'E' ∷ b'P' ∷ []), tt_step)
    ∷ (
      exact (b'S' ∷ b'T' ∷ b'O' ∷ b'P' ∷ b'_' ∷ b'T' ∷ b'I' ∷ b'M' ∷ b'E' ∷ b'R' ∷ []),
      tt_stop_timer,
    )
    ∷ (
      exact (b'S' ∷ b'E' ∷ b'T' ∷ b'_' ∷ b'P' ∷ b'R' ∷ b'O' ∷ b'G' ∷ b'R' ∷ b'A' ∷ b'M' ∷ []),
      tt_set_program,
    )
    ∷ []

abbrev keyword_words_4 : List Branch
keyword_words_4 =
    word (exact (b'T' ∷ b'O' ∷ [])) tt_to
    ∷ word (exact (b'T' ∷ b'H' ∷ b'E' ∷ b'N' ∷ [])) tt_then
    ∷ word (exact (b'W' ∷ b'H' ∷ b'I' ∷ b'L' ∷ b'E' ∷ [])) tt_while
    ∷ word (exact (b'<' ∷ [])) tt_less_than
    ∷ word (exact (b'>' ∷ [])) tt_greater_than
    ∷ word (exact (b'=' ∷ [])) tt_assign
    ∷ word (exact (b'!' ∷ [])) tt_bang
    ∷ word (exact (b'<' ∷ b'=' ∷ [])) tt_less_than_equal
    ∷ word (exact (b'>' ∷ b'=' ∷ [])) tt_greater_than_equal
    ∷ word (exact (b'=' ∷ b'=' ∷ [])) tt_equal
    ∷ word (exact (b'!' ∷ b'=' ∷ [])) tt_not_equal
    ∷ word (exact (b'(' ∷ [])) tt_open_paren
    ∷ word (exact (b')' ∷ [])) tt_close_paren
    ∷ word (exact (b',' ∷ [])) tt_comma
    ∷ word (exact (b'-' ∷ [])) tt_minus
    ∷ word (exact (b'~' ∷ [])) tt_unary_ones_complement
    ∷ word (exact (b'+' ∷ [])) tt_plus
    ∷ word (exact (b'/' ∷ [])) tt_divide
    ∷ word (exact (b'*' ∷ [])) tt_mult
    ∷ word (exact (b'|' ∷ [])) tt_bitwise_or
    ∷ []

abbrev keyword_words_5 : List Branch
keyword_words_5 =
    word (exact (b'^' ∷ [])) tt_bitwise_xor
    ∷ word (exact (b'&' ∷ [])) tt_bitwise_and
    ∷ word (exact (b'.' ∷ [])) tt_period
    ∷ word (exact (b':' ∷ [])) tt_colon
    ∷ word (exact (92 ∷ [])) tt_esc
    ∷ []

abbrev keyword_x : List Branch
keyword_x =
    word
      (exact (
        b'X' ∷ b'T' ∷ b'R' ∷ b'E' ∷ b'A' ∷ b'L' ∷ b'I' ∷ b'Z' ∷ b'E' ∷ b'W' ∷ b'I' ∷ b'D' ∷ b'G'
        ∷ b'E' ∷ b'T' ∷ []))
      tt_x
    ∷ word (exact (b'X' ∷ b'T' ∷ b'S' ∷ b'E' ∷ b'T' ∷ b'V' ∷ b'A' ∷ b'L' ∷ b'U' ∷ b'E' ∷ b'S' ∷ []))
        tt_x
    ∷ word
        (exact (
          b'X' ∷ b'T' ∷ b'A' ∷ b'P' ∷ b'P' ∷ b'I' ∷ b'N' ∷ b'I' ∷ b'T' ∷ b'I' ∷ b'A' ∷ b'L' ∷ b'I'
          ∷ b'Z' ∷ b'E' ∷ []))
        tt_x
    ∷ word (prefix (b'X' ∷ b'M' ∷ b'C' ∷ b'R' ∷ b'E' ∷ b'A' ∷ b'T' ∷ b'E' ∷ [])) tt_x
    ∷ []

-- The outer chain of get_token_type().
unfoldable pub keyword_branches : List Branch
keyword_branches =
    (group b'A' keyword_a ∷ [])
    ++ (group b'B' keyword_b ∷ [])
    ++ (group b'C' keyword_c ∷ [])
    ++ (group b'D' keyword_d ∷ [])
    ++ (group b'E' keyword_e ∷ [])
    ++ keyword_words_1
    ++ (group b'G' keyword_g ∷ [])
    ++ keyword_words_2
    ++ (group b'L' keyword_l ∷ [])
    ++ (group b'N' keyword_n ∷ [])
    ++ keyword_words_3
    ++ (group b'S' keyword_s ∷ [])
    ++ keyword_words_4
    ++ keyword_words_5
    ++ keyword_x

-- get_token_type()
unfoldable pub get_token_type : (toupper : ℕ → ℕ) → Text → Option TokenType
get_token_type toupper t = run_token keyword_branches (upper_token toupper t)
