-- ===== src/Tokens/Functions.antt =====
-- source/tokens.c, get_token_type_function(): the names of the functions, a list for each branch.
use sc_open.Prelude.{ℕ, Option, List, [], ◌∷◌, ◌++◌}
use sc_open.Tokens.{Text, exact, Words, Branch, group, upper_token, run_token}
use sc_open.Tokens.Kinds.{
  TokenType, tt_abs, tt_add_tmp_var, tt_btoi, tt_del_tmp_var, tt_dump, tt_export, tt_file_close,
  tt_file_open, tt_file_owc, tt_file_read, tt_file_write, tt_format, tt_ftoh, tt_get_client,
  tt_get_env, tt_get_tmp_var, tt_get_version, tt_htof, tt_htoi, tt_import, tt_instring, tt_is_label,
  tt_is_tmp_var, tt_is_var, tt_itoa, tt_itob, tt_itoh, tt_itoo, tt_mod, tt_otoi, tt_parse, tt_pow,
  tt_scan, tt_set_tmp_var, tt_sort_tmp_var, tt_sqrt, tt_strftime, tt_strlen, tt_substr, tt_swap,
  tt_system, tt_system_shell, tt_test, tt_time, tt_toupper, tt_tolower, tt_trace, tt_t_parse,
}

abbrev function_a : Words
function_a =
    (exact (b'A' ∷ b'B' ∷ b'S' ∷ []), tt_abs)
    ∷ (
      exact (b'A' ∷ b'D' ∷ b'D' ∷ b'_' ∷ b'T' ∷ b'M' ∷ b'P' ∷ b'_' ∷ b'V' ∷ b'A' ∷ b'R' ∷ []),
      tt_add_tmp_var,
    )
    ∷ []

abbrev function_b : Words
function_b = (exact (b'B' ∷ b'T' ∷ b'O' ∷ b'I' ∷ []), tt_btoi) ∷ []

abbrev function_d : Words
function_d =
    (
      exact (b'D' ∷ b'E' ∷ b'L' ∷ b'_' ∷ b'T' ∷ b'M' ∷ b'P' ∷ b'_' ∷ b'V' ∷ b'A' ∷ b'R' ∷ []),
      tt_del_tmp_var,
    )
    ∷ (exact (b'D' ∷ b'U' ∷ b'M' ∷ b'P' ∷ []), tt_dump)
    ∷ []

abbrev function_e : Words
function_e = (exact (b'E' ∷ b'X' ∷ b'P' ∷ b'O' ∷ b'R' ∷ b'T' ∷ []), tt_export) ∷ []

abbrev function_f : Words
function_f =
    (
      exact (b'F' ∷ b'I' ∷ b'L' ∷ b'E' ∷ b'_' ∷ b'C' ∷ b'L' ∷ b'O' ∷ b'S' ∷ b'E' ∷ []),
      tt_file_close,
    )
    ∷ (exact (b'F' ∷ b'I' ∷ b'L' ∷ b'E' ∷ b'_' ∷ b'O' ∷ b'P' ∷ b'E' ∷ b'N' ∷ []), tt_file_open)
    ∷ (exact (b'F' ∷ b'I' ∷ b'L' ∷ b'E' ∷ b'_' ∷ b'O' ∷ b'W' ∷ b'C' ∷ []), tt_file_owc)
    ∷ (exact (b'F' ∷ b'I' ∷ b'L' ∷ b'E' ∷ b'_' ∷ b'R' ∷ b'E' ∷ b'A' ∷ b'D' ∷ []), tt_file_read)
    ∷ (
      exact (b'F' ∷ b'I' ∷ b'L' ∷ b'E' ∷ b'_' ∷ b'W' ∷ b'R' ∷ b'I' ∷ b'T' ∷ b'E' ∷ []),
      tt_file_write,
    )
    ∷ (exact (b'F' ∷ b'O' ∷ b'R' ∷ b'M' ∷ b'A' ∷ b'T' ∷ []), tt_format)
    ∷ (exact (b'F' ∷ b'T' ∷ b'O' ∷ b'H' ∷ []), tt_ftoh)
    ∷ []

abbrev function_g : Words
function_g =
    (
      exact (b'G' ∷ b'E' ∷ b'T' ∷ b'_' ∷ b'C' ∷ b'L' ∷ b'I' ∷ b'E' ∷ b'N' ∷ b'T' ∷ []),
      tt_get_client,
    )
    ∷ (exact (b'G' ∷ b'E' ∷ b'T' ∷ b'_' ∷ b'E' ∷ b'N' ∷ b'V' ∷ []), tt_get_env)
    ∷ (
      exact (b'G' ∷ b'E' ∷ b'T' ∷ b'_' ∷ b'T' ∷ b'M' ∷ b'P' ∷ b'_' ∷ b'V' ∷ b'A' ∷ b'R' ∷ []),
      tt_get_tmp_var,
    )
    ∷ (
      exact (b'G' ∷ b'E' ∷ b'T' ∷ b'_' ∷ b'V' ∷ b'E' ∷ b'R' ∷ b'S' ∷ b'I' ∷ b'O' ∷ b'N' ∷ []),
      tt_get_version,
    )
    ∷ []

abbrev function_h : Words
function_h =
    (exact (b'H' ∷ b'T' ∷ b'O' ∷ b'F' ∷ []), tt_htof)
    ∷ (exact (b'H' ∷ b'T' ∷ b'O' ∷ b'I' ∷ []), tt_htoi)
    ∷ []

abbrev function_i : Words
function_i =
    (exact (b'I' ∷ b'M' ∷ b'P' ∷ b'O' ∷ b'R' ∷ b'T' ∷ []), tt_import)
    ∷ (exact (b'I' ∷ b'N' ∷ b'S' ∷ b'T' ∷ b'R' ∷ b'I' ∷ b'N' ∷ b'G' ∷ []), tt_instring)
    ∷ (exact (b'I' ∷ b'S' ∷ b'_' ∷ b'L' ∷ b'A' ∷ b'B' ∷ b'E' ∷ b'L' ∷ []), tt_is_label)
    ∷ (
      exact (b'I' ∷ b'S' ∷ b'_' ∷ b'T' ∷ b'M' ∷ b'P' ∷ b'_' ∷ b'V' ∷ b'A' ∷ b'R' ∷ []),
      tt_is_tmp_var,
    )
    ∷ (exact (b'I' ∷ b'S' ∷ b'_' ∷ b'V' ∷ b'A' ∷ b'R' ∷ []), tt_is_var)
    ∷ (exact (b'I' ∷ b'T' ∷ b'O' ∷ b'A' ∷ []), tt_itoa)
    ∷ (exact (b'I' ∷ b'T' ∷ b'O' ∷ b'B' ∷ []), tt_itob)
    ∷ (exact (b'I' ∷ b'T' ∷ b'O' ∷ b'H' ∷ []), tt_itoh)
    ∷ (exact (b'I' ∷ b'T' ∷ b'O' ∷ b'O' ∷ []), tt_itoo)
    ∷ []

abbrev function_m : Words
function_m = (exact (b'M' ∷ b'O' ∷ b'D' ∷ []), tt_mod) ∷ []

abbrev function_o : Words
function_o = (exact (b'O' ∷ b'T' ∷ b'O' ∷ b'I' ∷ []), tt_otoi) ∷ []

abbrev function_p : Words
function_p =
    (exact (b'P' ∷ b'A' ∷ b'R' ∷ b'S' ∷ b'E' ∷ []), tt_parse)
    ∷ (exact (b'P' ∷ b'O' ∷ b'W' ∷ []), tt_pow)
    ∷ []

abbrev function_s : Words
function_s =
    (exact (b'S' ∷ b'C' ∷ b'A' ∷ b'N' ∷ []), tt_scan)
    ∷ (
      exact (b'S' ∷ b'E' ∷ b'T' ∷ b'_' ∷ b'T' ∷ b'M' ∷ b'P' ∷ b'_' ∷ b'V' ∷ b'A' ∷ b'R' ∷ []),
      tt_set_tmp_var,
    )
    ∷ (
      exact
          (b'S' ∷ b'O' ∷ b'R' ∷ b'T' ∷ b'_' ∷ b'T' ∷ b'M' ∷ b'P' ∷ b'_' ∷ b'V' ∷ b'A' ∷ b'R' ∷ []),
      tt_sort_tmp_var,
    )
    ∷ (exact (b'S' ∷ b'Q' ∷ b'R' ∷ b'T' ∷ []), tt_sqrt)
    ∷ (exact (b'S' ∷ b'T' ∷ b'R' ∷ b'F' ∷ b'T' ∷ b'I' ∷ b'M' ∷ b'E' ∷ []), tt_strftime)
    ∷ (exact (b'S' ∷ b'T' ∷ b'R' ∷ b'L' ∷ b'E' ∷ b'N' ∷ []), tt_strlen)
    ∷ (exact (b'S' ∷ b'U' ∷ b'B' ∷ b'S' ∷ b'T' ∷ b'R' ∷ []), tt_substr)
    ∷ (exact (b'S' ∷ b'W' ∷ b'A' ∷ b'P' ∷ []), tt_swap)
    ∷ (exact (b'S' ∷ b'Y' ∷ b'S' ∷ b'T' ∷ b'E' ∷ b'M' ∷ []), tt_system)
    ∷ (
      exact
          (b'S' ∷ b'Y' ∷ b'S' ∷ b'T' ∷ b'E' ∷ b'M' ∷ b'_' ∷ b'S' ∷ b'H' ∷ b'E' ∷ b'L' ∷ b'L' ∷ []),
      tt_system_shell,
    )
    ∷ []

abbrev function_t : Words
function_t =
    (exact (b'T' ∷ b'E' ∷ b'S' ∷ b'T' ∷ []), tt_test)
    ∷ (exact (b'T' ∷ b'I' ∷ b'M' ∷ b'E' ∷ []), tt_time)
    ∷ (exact (b'T' ∷ b'O' ∷ b'U' ∷ b'P' ∷ b'P' ∷ b'E' ∷ b'R' ∷ []), tt_toupper)
    ∷ (exact (b'T' ∷ b'O' ∷ b'L' ∷ b'O' ∷ b'W' ∷ b'E' ∷ b'R' ∷ []), tt_tolower)
    ∷ (exact (b'T' ∷ b'R' ∷ b'A' ∷ b'C' ∷ b'E' ∷ []), tt_trace)
    ∷ (exact (b'T' ∷ b'_' ∷ b'P' ∷ b'A' ∷ b'R' ∷ b'S' ∷ b'E' ∷ []), tt_t_parse)
    ∷ []

-- The outer chain of get_token_type_function().
unfoldable pub function_branches : List Branch
function_branches =
    (group b'A' function_a ∷ [])
    ++ (group b'B' function_b ∷ [])
    ++ (group b'D' function_d ∷ [])
    ++ (group b'E' function_e ∷ [])
    ++ (group b'F' function_f ∷ [])
    ++ (group b'G' function_g ∷ [])
    ++ (group b'H' function_h ∷ [])
    ++ (group b'I' function_i ∷ [])
    ++ (group b'M' function_m ∷ [])
    ++ (group b'O' function_o ∷ [])
    ++ (group b'P' function_p ∷ [])
    ++ (group b'S' function_s ∷ [])
    ++ (group b'T' function_t ∷ [])

-- get_token_type_function()
unfoldable pub get_token_type_function : (toupper : ℕ → ℕ) → Text → Option TokenType
get_token_type_function toupper t = run_token function_branches (upper_token toupper t)
