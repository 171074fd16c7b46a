-- ===== src/TmpVariables/Tests.antt =====
-- The table of the temporary variables at small inputs.
use sc_open.Prelude.{◌≡◌, refl, List, [], ◌∷◌}
use sc_open.TmpVariables.{
  put_at, Text, Variable, name_cmp, strcmp, get_hash, hash_loop, key_of, new_variable,
  tmp_variable_put, tmp_variable_get, got, read_value,
}
use sc_open.TmpVariables.Search.{search_table, search_table-Finds}
use sc_open.TmpVariables.Order.{Valid}
use sc_open.TmpVariables.Lookup.{lookup}
use sc_open.TmpVariables.Put.{after_put, tmp_variable_put-Valid, tmp_variable_get-put}

abbrev lot : Text
lot = 108 ∷ 111 ∷ 116 ∷ []

abbrev ppid : Text
ppid = 112 ∷ 112 ∷ 105 ∷ 100 ∷ []

abbrev table : List Variable
table = tmp_variable_put search_table lot (65 ∷ 49 ∷ []) 2 []

table-Valid : Valid table
unfolding tmp_variable_put new_variable
table-Valid = ((refl, tt), (tt, tt))

tmp_variable_put-Valid_example : Valid (tmp_variable_put search_table ppid (66 ∷ []) 1 table)
tmp_variable_put-Valid_example =
    tmp_variable_put-Valid search_table ppid (66 ∷ []) 1 table search_table-Finds table-Valid

-- The second put is longer than the first: its end is lost.
tmp_variable_get-put_example :
    tmp_variable_get search_table lot
      (tmp_variable_put search_table lot (66 ∷ 50 ∷ 51 ∷ []) 3 table)
    ≡ after_put
        (strcmp lot lot)
        lot
        (66 ∷ 50 ∷ 51 ∷ [])
        3
        (lookup lot table)
        (tmp_variable_get search_table lot table)
tmp_variable_get-put_example =
    tmp_variable_get-put search_table lot lot (66 ∷ 50 ∷ 51 ∷ []) 3 table search_table-Finds
      table-Valid

second_put_cut :
    tmp_variable_get search_table lot
      (tmp_variable_put search_table lot (66 ∷ 50 ∷ 51 ∷ []) 3 table)
    ≡ got (66 ∷ 50 ∷ [])
unfolding tmp_variable_get read_value tmp_variable_put put_at search_table name_cmp strcmp get_hash
    hash_loop key_of new_variable
second_put_cut = refl
