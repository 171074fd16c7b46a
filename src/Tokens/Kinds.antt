-- ===== src/Tokens/Kinds.antt =====
-- headers/tokens.h: the types of tokens, and which of them are functions (source/tokens.c).
use sc_open.Prelude.{Bool, true, false}

pub data TokenType : Type 0 where
  tt_special tt_null_token tt_end_of_line tt_variable tt_identifier tt_string : TokenType
  tt_constant tt_operator tt_number tt_line_number tt_pound_include : TokenType
  tt_pound_define tt_pound_ifdef tt_pound_else tt_pound_endif tt_comment : TokenType
  tt_unknown tt_after tt_break tt_break_loop tt_begin tt_continue tt_close : TokenType
  tt_define tt_define_array tt_define_xref tt_local_var tt_delete tt_end tt_else : TokenType
  tt_else_if tt_end_if tt_end_while tt_error tt_exit tt_for tt_glet tt_gosub : TokenType
  tt_goto tt_if tt_label tt_let tt_next tt_no_error tt_open tt_pragma tt_print : TokenType
  tt_return tt_send tt_send_reply tt_set_program tt_sleep tt_start_timer tt_step : TokenType
  tt_stop_timer tt_then tt_to tt_while tt_equal tt_esc tt_assign tt_bang tt_colon : TokenType
  tt_greater_than tt_greater_than_equal tt_less_than tt_less_than_equal : TokenType
  tt_not_equal tt_bitwise_and tt_close_paren tt_comma tt_divide tt_logical_and : TokenType
  tt_logical_or tt_minus tt_unary_minus tt_mult tt_open_paren tt_bitwise_or : TokenType
  tt_bitwise_xor tt_unary_ones_complement tt_plus tt_unary_plus tt_period : TokenType
  tt_str_equal tt_str_not_equal tt_x tt_function tt_function_min tt_scan tt_substr : TokenType
  tt_sqrt tt_strftime tt_strlen tt_get_tmp_var tt_get_version tt_file_close : TokenType
  tt_file_open tt_file_owc tt_file_read tt_file_write tt_format tt_dump tt_trace : TokenType
  tt_del_tmp_var tt_sort_tmp_var tt_add_tmp_var tt_set_tmp_var tt_htoi tt_otoi : TokenType
  tt_itoh tt_import tt_ftoh tt_htof tt_swap tt_btoi tt_itoa tt_itob tt_abs tt_itoo : TokenType
  tt_instring tt_is_label tt_is_tmp_var tt_is_var tt_get_client tt_get_env : TokenType
  tt_system tt_system_shell tt_test tt_time tt_tolower tt_toupper tt_mod : TokenType
  tt_t_parse tt_parse tt_pow tt_export tt_function_max tt_not_assigned_yet : TokenType
  tt_end_of_list : TokenType

-- is_function(): the types between TT_FUNCTION_MIN and TT_FUNCTION_MAX.
unfoldable pub is_function : TokenType → Bool
is_function tt_scan = true
is_function tt_substr = true
is_function tt_sqrt = true
is_function tt_strftime = true
is_function tt_strlen = true
is_function tt_get_tmp_var = true
is_function tt_get_version = true
is_function tt_file_close = true
is_function tt_file_open = true
is_function tt_file_owc = true
is_function tt_file_read = true
is_function tt_file_write = true
is_function tt_format = true
is_function tt_dump = true
is_function tt_trace = true
is_function tt_del_tmp_var = true
is_function tt_sort_tmp_var = true
is_function tt_add_tmp_var = true
is_function tt_set_tmp_var = true
is_function tt_htoi = true
is_function tt_otoi = true
is_function tt_itoh = true
is_function tt_import = true
is_function tt_ftoh = true
is_function tt_htof = true
is_function tt_swap = true
is_function tt_btoi = true
is_function tt_itoa = true
is_function tt_itob = true
is_function tt_abs = true
is_function tt_itoo = true
is_function tt_instring = true
is_function tt_is_label = true
is_function tt_is_tmp_var = true
is_function tt_is_var = true
is_function tt_get_client = true
is_function tt_get_env = true
is_function tt_system = true
is_function tt_system_shell = true
is_function tt_test = true
is_function tt_time = true
is_function tt_tolower = true
is_function tt_toupper = true
is_function tt_mod = true
is_function tt_t_parse = true
is_function tt_parse = true
is_function tt_pow = true
is_function tt_export = true
is_function _ = false
