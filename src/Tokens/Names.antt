-- ===== src/Tokens/Names.antt =====
-- source/tokens.c, show_type(): the names of the types.
use sc_open.Prelude.{Option, none, some, [], ◌∷◌}
use sc_open.Tokens.{Text}
use sc_open.Tokens.Kinds.{
  TokenType, tt_special, tt_null_token, tt_end_of_line, tt_variable, tt_identifier, tt_string,
  tt_constant, tt_operator, tt_number, tt_line_number, tt_pound_include, tt_pound_define,
  tt_pound_ifdef, tt_pound_else, tt_pound_endif, tt_comment, tt_unknown, tt_after, tt_break,
  tt_break_loop, tt_begin, tt_continue, tt_close, tt_define, tt_define_array, tt_define_xref,
  tt_local_var, tt_delete, tt_end, tt_else, tt_else_if, tt_end_if, tt_end_while, tt_error, tt_exit,
  tt_for, tt_glet, tt_gosub, tt_goto, tt_if, tt_label, tt_let, tt_next, tt_no_error, tt_open,
  tt_pragma, tt_print, tt_return, tt_send, tt_send_reply, tt_set_program, tt_sleep, tt_start_timer,
  tt_step, tt_stop_timer, tt_then, tt_to, tt_while, tt_equal, tt_esc, tt_assign, tt_bang, tt_colon,
  tt_greater_than, tt_greater_than_equal, tt_less_than, tt_less_than_equal, tt_not_equal,
  tt_bitwise_and, tt_close_paren, tt_comma, tt_divide, tt_logical_and, tt_logical_or, tt_minus,
  tt_unary_minus, tt_mult, tt_open_paren, tt_bitwise_or, tt_bitwise_xor, tt_unary_ones_complement,
  tt_plus, tt_unary_plus, tt_period, tt_str_equal, tt_str_not_equal, tt_x, tt_function,
  tt_function_min, tt_scan, tt_substr, tt_sqrt, tt_strftime, tt_strlen, tt_get_tmp_var,
  tt_get_version, tt_file_close, tt_file_open, tt_file_owc, tt_file_read, tt_file_write, tt_format,
  tt_dump, tt_trace, tt_del_tmp_var, tt_sort_tmp_var, tt_add_tmp_var, tt_set_tmp_var, tt_htoi,
  tt_otoi, tt_itoh, tt_import, tt_ftoh, tt_htof, tt_swap, tt_btoi, tt_itoa, tt_itob, tt_abs,
  tt_itoo, tt_instring, tt_is_label, tt_is_tmp_var, tt_is_var, tt_get_client, tt_get_env, tt_system,
  tt_system_shell, tt_test, tt_time, tt_tolower, tt_toupper, tt_mod, tt_t_parse, tt_parse, tt_pow,
  tt_export, tt_function_max,
}

-- show_type(); `none` where it ends with a fatal error.
unfoldable pub show_type : TokenType → Option Text
show_type tt_special = some (b's' ∷ b'p' ∷ b'e' ∷ b'c' ∷ b'i' ∷ b'a' ∷ b'l' ∷ [])
show_type tt_null_token =
    some (b'n' ∷ b'u' ∷ b'l' ∷ b'l' ∷ b' ' ∷ b't' ∷ b'o' ∷ b'k' ∷ b'e' ∷ b'n' ∷ [])
show_type tt_end_of_line = some (b'e' ∷ b'o' ∷ b'l' ∷ [])
show_type tt_variable = some (b'v' ∷ b'a' ∷ b'r' ∷ b'i' ∷ b'a' ∷ b'b' ∷ b'l' ∷ b'e' ∷ [])
show_type tt_identifier =
    some (b'i' ∷ b'd' ∷ b'e' ∷ b'n' ∷ b't' ∷ b'i' ∷ b'f' ∷ b'i' ∷ b'e' ∷ b'r' ∷ [])
show_type tt_string = some (b's' ∷ b't' ∷ b'r' ∷ b'i' ∷ b'n' ∷ b'g' ∷ [])
show_type tt_constant = some (b'c' ∷ b'o' ∷ b'n' ∷ b's' ∷ b't' ∷ b'a' ∷ b'n' ∷ b't' ∷ [])
show_type tt_operator = some (b'o' ∷ b'p' ∷ b'e' ∷ b'r' ∷ b'a' ∷ b't' ∷ b'o' ∷ b'r' ∷ [])
show_type tt_number = some (b'n' ∷ b'u' ∷ b'm' ∷ b'b' ∷ b'e' ∷ b'r' ∷ [])
show_type tt_line_number = some (b'#' ∷ [])
show_type tt_pound_include = some (b'#' ∷ b'i' ∷ b'n' ∷ b'c' ∷ b'l' ∷ b'u' ∷ b'd' ∷ b'e' ∷ [])
show_type tt_pound_define = some (b'#' ∷ b'd' ∷ b'e' ∷ b'f' ∷ b'i' ∷ b'n' ∷ b'e' ∷ [])
show_type tt_pound_ifdef = some (b'#' ∷ b'i' ∷ b'f' ∷ b'd' ∷ b'e' ∷ b'f' ∷ [])
show_type tt_pound_else = some (b'#' ∷ b'e' ∷ b'l' ∷ b's' ∷ b'e' ∷ [])
show_type tt_pound_endif = some (b'#' ∷ b'e' ∷ b'n' ∷ b'd' ∷ b'i' ∷ b'f' ∷ [])
show_type tt_comment = some (b'c' ∷ b'o' ∷ b'm' ∷ b'm' ∷ b'e' ∷ b'n' ∷ b't' ∷ [])
show_type tt_unknown = some (b'u' ∷ b'n' ∷ b'k' ∷ b'n' ∷ b'o' ∷ b'w' ∷ b'n' ∷ [])
show_type tt_after = some (b'a' ∷ b'f' ∷ b't' ∷ b'e' ∷ b'r' ∷ [])
show_type tt_break = some (b'b' ∷ b'r' ∷ b'e' ∷ b'a' ∷ b'k' ∷ [])
show_type tt_break_loop =
    some (b'b' ∷ b'r' ∷ b'e' ∷ b'a' ∷ b'k' ∷ b'_' ∷ b'l' ∷ b'o' ∷ b'o' ∷ b'p' ∷ [])
show_type tt_begin = some (b'b' ∷ b'e' ∷ b'g' ∷ b'i' ∷ b'n' ∷ [])
show_type tt_continue = some (b'c' ∷ b'o' ∷ b'n' ∷ b't' ∷ b'i' ∷ b'n' ∷ b'u' ∷ b'e' ∷ [])
show_type tt_close = some (b'c' ∷ b'l' ∷ b'o' ∷ b's' ∷ b'e' ∷ [])
show_type tt_define = some (b'd' ∷ b'e' ∷ b'f' ∷ b'i' ∷ b'n' ∷ b'e' ∷ [])
show_type tt_define_array =
    some (b'd' ∷ b'e' ∷ b'f' ∷ b'i' ∷ b'n' ∷ b'e' ∷ b'_' ∷ b'a' ∷ b'r' ∷ b'r' ∷ b'a' ∷ b'y' ∷ [])
show_type tt_define_xref =
    some (b'd' ∷ b'e' ∷ b'f' ∷ b'i' ∷ b'n' ∷ b'e' ∷ b'_' ∷ b'x' ∷ b'r' ∷ b'e' ∷ b'f' ∷ [])
show_type tt_local_var = some (b'l' ∷ b'o' ∷ b'c' ∷ b'a' ∷ b'l' ∷ b'_' ∷ b'v' ∷ b'a' ∷ b'r' ∷ [])
show_type tt_delete = some (b'd' ∷ b'e' ∷ b'l' ∷ b'e' ∷ b't' ∷ b'e' ∷ [])
show_type tt_end = some (b'e' ∷ b'n' ∷ b'd' ∷ [])
show_type tt_else = some (b'e' ∷ b'l' ∷ b's' ∷ b'e' ∷ [])
show_type tt_else_if = some (b'e' ∷ b'l' ∷ b's' ∷ b'e' ∷ b'_' ∷ b'i' ∷ b'f' ∷ [])
show_type tt_end_if = some (b'e' ∷ b'n' ∷ b'd' ∷ b'_' ∷ b'i' ∷ b'f' ∷ [])
show_type tt_end_while = some (b'e' ∷ b'n' ∷ b'd' ∷ b'_' ∷ b'w' ∷ b'h' ∷ b'i' ∷ b'l' ∷ b'e' ∷ [])
show_type tt_error = some (b'e' ∷ b'r' ∷ b'r' ∷ b'o' ∷ b'r' ∷ [])
show_type tt_exit = some (b'e' ∷ b'x' ∷ b'i' ∷ b't' ∷ [])
show_type tt_for = some (b'f' ∷ b'o' ∷ b'r' ∷ [])
show_type tt_glet = some (b'g' ∷ b'l' ∷ b'e' ∷ b't' ∷ [])
show_type tt_gosub = some (b'g' ∷ b'o' ∷ b's' ∷ b'u' ∷ b'b' ∷ [])
show_type tt_goto = some (b'g' ∷ b'o' ∷ b't' ∷ b'o' ∷ [])
show_type tt_if = some (b'i' ∷ b'f' ∷ [])
show_type tt_label = some (b'l' ∷ b'a' ∷ b'b' ∷ b'e' ∷ b'l' ∷ [])
show_type tt_let = some (b'l' ∷ b'e' ∷ b't' ∷ [])
show_type tt_next = some (b'n' ∷ b'e' ∷ b'x' ∷ b't' ∷ [])
show_type tt_no_error = some (b'n' ∷ b'o' ∷ b'_' ∷ b'e' ∷ b'r' ∷ b'r' ∷ b'o' ∷ b'r' ∷ [])
show_type tt_open = some (b'o' ∷ b'p' ∷ b'e' ∷ b'n' ∷ [])
show_type tt_pragma = some (b'p' ∷ b'r' ∷ b'a' ∷ b'g' ∷ b'm' ∷ b'a' ∷ [])
show_type tt_print = some (b'p' ∷ b'r' ∷ b'i' ∷ b'n' ∷ b't' ∷ [])
show_type tt_return = some (b'r' ∷ b'e' ∷ b't' ∷ b'u' ∷ b'r' ∷ b'n' ∷ [])
show_type tt_send = some (b's' ∷ b'e' ∷ b'n' ∷ b'd' ∷ [])
show_type tt_send_reply =
    some (b's' ∷ b'e' ∷ b'n' ∷ b'd' ∷ b'_' ∷ b'r' ∷ b'e' ∷ b'p' ∷ b'l' ∷ b'y' ∷ [])
show_type tt_set_program =
    some (b's' ∷ b'e' ∷ b't' ∷ b'_' ∷ b'p' ∷ b'r' ∷ b'o' ∷ b'g' ∷ b'r' ∷ b'a' ∷ b'm' ∷ [])
show_type tt_sleep = some (b's' ∷ b'l' ∷ b'e' ∷ b'e' ∷ b'p' ∷ [])
show_type tt_start_timer =
    some (b's' ∷ b't' ∷ b'a' ∷ b'r' ∷ b't' ∷ b'_' ∷ b't' ∷ b'i' ∷ b'm' ∷ b'e' ∷ b'r' ∷ [])
show_type tt_step = some (b's' ∷ b't' ∷ b'e' ∷ b'p' ∷ [])
show_type tt_stop_timer =
    some (b's' ∷ b't' ∷ b'o' ∷ b'p' ∷ b'_' ∷ b't' ∷ b'i' ∷ b'm' ∷ b'e' ∷ b'r' ∷ [])
show_type tt_then = some (b't' ∷ b'h' ∷ b'e' ∷ b'n' ∷ [])
show_type tt_to = some (b't' ∷ b'o' ∷ [])
show_type tt_while = some (b'w' ∷ b'h' ∷ b'i' ∷ b'l' ∷ b'e' ∷ [])
show_type tt_equal = some (b'=' ∷ b'=' ∷ [])
show_type tt_esc = some (b'e' ∷ b's' ∷ b'c' ∷ [])
show_type tt_assign = some (b'=' ∷ [])
show_type tt_bang = some (b'!' ∷ [])
show_type tt_colon = some (b':' ∷ [])
show_type tt_greater_than = some (b'>' ∷ [])
show_type tt_greater_than_equal = some (b'>' ∷ b'=' ∷ [])
show_type tt_less_than = some (b'<' ∷ [])
show_type tt_less_than_equal = some (b'<' ∷ b'=' ∷ [])
show_type tt_not_equal = some (b'!' ∷ b'=' ∷ [])
show_type tt_bitwise_and = some (b'&' ∷ [])
show_type tt_close_paren = some (b')' ∷ [])
show_type tt_comma = some (b',' ∷ [])
show_type tt_divide = some (b'/' ∷ [])
show_type tt_logical_and = some (b'a' ∷ b'n' ∷ b'd' ∷ [])
show_type tt_logical_or = some (b'o' ∷ b'r' ∷ [])
show_type tt_minus = some (b'-' ∷ [])
show_type tt_unary_minus = some (b'u' ∷ b'n' ∷ b'a' ∷ b'r' ∷ b'y' ∷ b' ' ∷ b'-' ∷ [])
show_type tt_mult = some (b'*' ∷ [])
show_type tt_open_paren = some (b'(' ∷ [])
show_type tt_bitwise_or = some (b'|' ∷ [])
show_type tt_bitwise_xor = some (b'^' ∷ [])
show_type tt_unary_ones_complement = some (b'~' ∷ [])
show_type tt_plus = some (b'+' ∷ [])
show_type tt_unary_plus = some (b'u' ∷ b'n' ∷ b'a' ∷ b'r' ∷ b'y' ∷ b' ' ∷ b'+' ∷ [])
show_type tt_period = some (b'.' ∷ [])
show_type tt_str_equal = some (b'e' ∷ b'q' ∷ [])
show_type tt_str_not_equal = some (b'n' ∷ b'e' ∷ [])
show_type tt_x = some (b'x' ∷ b'<' ∷ b'c' ∷ b'o' ∷ b'm' ∷ b'm' ∷ b'a' ∷ b'n' ∷ b'd' ∷ b'>' ∷ [])
show_type tt_function = some (b'f' ∷ b'u' ∷ b'n' ∷ b'c' ∷ b't' ∷ b'i' ∷ b'o' ∷ b'n' ∷ [])
show_type tt_function_min =
    some (b'f' ∷ b'u' ∷ b'n' ∷ b'c' ∷ b't' ∷ b'i' ∷ b'o' ∷ b'n' ∷ b'_' ∷ b'm' ∷ b'i' ∷ b'n' ∷ [])
show_type tt_scan = some (b's' ∷ b'c' ∷ b'a' ∷ b'n' ∷ [])
show_type tt_substr = some (b's' ∷ b'u' ∷ b'b' ∷ b's' ∷ b't' ∷ b'r' ∷ [])
show_type tt_sqrt = some (b's' ∷ b'q' ∷ b'r' ∷ b't' ∷ [])
show_type tt_strftime = some (b's' ∷ b't' ∷ b'r' ∷ b'f' ∷ b't' ∷ b'i' ∷ b'm' ∷ b'e' ∷ [])
show_type tt_strlen = some (b's' ∷ b't' ∷ b'r' ∷ b'l' ∷ b'e' ∷ b'n' ∷ [])
show_type tt_get_tmp_var =
    some (b'g' ∷ b'e' ∷ b't' ∷ b'_' ∷ b't' ∷ b'm' ∷ b'p' ∷ b'_' ∷ b'v' ∷ b'a' ∷ b'r' ∷ [])
show_type tt_get_version =
    some (b'g' ∷ b'e' ∷ b't' ∷ b'_' ∷ b'v' ∷ b'e' ∷ b'r' ∷ b's' ∷ b'i' ∷ b'o' ∷ b'n' ∷ [])
show_type tt_file_close =
    some (b'f' ∷ b'i' ∷ b'l' ∷ b'e' ∷ b'_' ∷ b'c' ∷ b'l' ∷ b'o' ∷ b's' ∷ b'e' ∷ [])
show_type tt_file_open = some (b'f' ∷ b'i' ∷ b'l' ∷ b'e' ∷ b'_' ∷ b'o' ∷ b'p' ∷ b'e' ∷ b'n' ∷ [])
show_type tt_file_owc = some (b'f' ∷ b'i' ∷ b'l' ∷ b'e' ∷ b'_' ∷ b'o' ∷ b'w' ∷ b'c' ∷ [])
show_type tt_file_read = some (b'f' ∷ b'i' ∷ b'l' ∷ b'e' ∷ b'_' ∷ b'r' ∷ b'e' ∷ b'a' ∷ b'd' ∷ [])
show_type tt_file_write =
    some (b'f' ∷ b'i' ∷ b'l' ∷ b'e' ∷ b'_' ∷ b'w' ∷ b'r' ∷ b'i' ∷ b't' ∷ b'e' ∷ [])
show_type tt_format = some (b'f' ∷ b'o' ∷ b'r' ∷ b'm' ∷ b'a' ∷ b't' ∷ [])
show_type tt_dump = some (b'd' ∷ b'u' ∷ b'm' ∷ b'p' ∷ [])
show_type tt_trace = some (b't' ∷ b'r' ∷ b'a' ∷ b'c' ∷ b'e' ∷ [])
show_type tt_del_tmp_var =
    some (b'd' ∷ b'e' ∷ b'l' ∷ b'_' ∷ b't' ∷ b'm' ∷ b'p' ∷ b'_' ∷ b'v' ∷ b'a' ∷ b'r' ∷ [])
show_type tt_sort_tmp_var =
    some (b's' ∷ b'o' ∷ b'r' ∷ b't' ∷ b'_' ∷ b't' ∷ b'm' ∷ b'p' ∷ b'_' ∷ b'v' ∷ b'a' ∷ b'r' ∷ [])
show_type tt_add_tmp_var =
    some (b'a' ∷ b'd' ∷ b'd' ∷ b'_' ∷ b't' ∷ b'm' ∷ b'p' ∷ b'_' ∷ b'v' ∷ b'a' ∷ b'r' ∷ [])
show_type tt_set_tmp_var =
    some (b's' ∷ b'e' ∷ b't' ∷ b'_' ∷ b't' ∷ b'm' ∷ b'p' ∷ b'_' ∷ b'v' ∷ b'a' ∷ b'r' ∷ [])
show_type tt_htoi = some (b'h' ∷ b't' ∷ b'o' ∷ b'i' ∷ [])
show_type tt_otoi = some (b'o' ∷ b't' ∷ b'o' ∷ b'i' ∷ [])
show_type tt_itoh = some (b'i' ∷ b't' ∷ b'o' ∷ b'h' ∷ [])
show_type tt_import = some (b'i' ∷ b'm' ∷ b'p' ∷ b'o' ∷ b'r' ∷ b't' ∷ [])
show_type tt_ftoh = some (b'f' ∷ b't' ∷ b'o' ∷ b'h' ∷ [])
show_type tt_htof = some (b'h' ∷ b't' ∷ b'o' ∷ b'f' ∷ [])
show_type tt_swap = some (b's' ∷ b'w' ∷ b'a' ∷ b'p' ∷ [])
show_type tt_btoi = some (b'b' ∷ b't' ∷ b'o' ∷ b'i' ∷ [])
show_type tt_itoa = some (b'i' ∷ b't' ∷ b'o' ∷ b'a' ∷ [])
show_type tt_itob = some (b'i' ∷ b't' ∷ b'o' ∷ b'b' ∷ [])
show_type tt_abs = some (b'a' ∷ b'b' ∷ b's' ∷ [])
show_type tt_itoo = some (b'i' ∷ b't' ∷ b'o' ∷ b'o' ∷ [])
show_type tt_instring = some (b'i' ∷ b'n' ∷ b's' ∷ b't' ∷ b'r' ∷ b'i' ∷ b'n' ∷ b'g' ∷ [])
show_type tt_is_label = some (b'i' ∷ b's' ∷ b'_' ∷ b'l' ∷ b'a' ∷ b'b' ∷ b'e' ∷ b'l' ∷ [])
show_type tt_is_tmp_var =
    some (b'i' ∷ b's' ∷ b'_' ∷ b't' ∷ b'm' ∷ b'p' ∷ b'_' ∷ b'v' ∷ b'a' ∷ b'r' ∷ [])
show_type tt_is_var = some (b'i' ∷ b's' ∷ b'_' ∷ b'v' ∷ b'a' ∷ b'r' ∷ [])
show_type tt_get_client =
    some (b'g' ∷ b'e' ∷ b't' ∷ b'_' ∷ b'c' ∷ b'l' ∷ b'i' ∷ b'e' ∷ b'n' ∷ b't' ∷ [])
show_type tt_get_env = some (b'g' ∷ b'e' ∷ b't' ∷ b'_' ∷ b'e' ∷ b'n' ∷ b'v' ∷ [])
show_type tt_system = some (b's' ∷ b'y' ∷ b's' ∷ b't' ∷ b'e' ∷ b'm' ∷ [])
show_type tt_system_shell =
    some (b's' ∷ b'y' ∷ b's' ∷ b't' ∷ b'e' ∷ b'm' ∷ b'_' ∷ b's' ∷ b'h' ∷ b'e' ∷ b'l' ∷ b'l' ∷ [])
show_type tt_test = some (b't' ∷ b'e' ∷ b's' ∷ b't' ∷ [])
show_type tt_time = some (b't' ∷ b'i' ∷ b'm' ∷ b'e' ∷ [])
show_type tt_tolower = some (b't' ∷ b'o' ∷ b'l' ∷ b'o' ∷ b'w' ∷ b'e' ∷ b'r' ∷ [])
show_type tt_toupper = some (b't' ∷ b'o' ∷ b'u' ∷ b'p' ∷ b'p' ∷ b'e' ∷ b'r' ∷ [])
show_type tt_mod = some (b'm' ∷ b'o' ∷ b'd' ∷ [])
show_type tt_t_parse = some (b't' ∷ b'_' ∷ b'p' ∷ b'a' ∷ b'r' ∷ b's' ∷ b'e' ∷ [])
show_type tt_parse = some (b'p' ∷ b'a' ∷ b'r' ∷ b's' ∷ b'e' ∷ [])
show_type tt_pow = some (b'p' ∷ b'o' ∷ b'w' ∷ [])
show_type tt_export = some (b'e' ∷ b'x' ∷ b'p' ∷ b'o' ∷ b'r' ∷ b't' ∷ [])
show_type tt_function_max =
    some (b'f' ∷ b'u' ∷ b'n' ∷ b'c' ∷ b't' ∷ b'i' ∷ b'o' ∷ b'n' ∷ b'_' ∷ b'm' ∷ b'a' ∷ b'x' ∷ [])
show_type _ = none
