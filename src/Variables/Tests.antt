-- ===== src/Variables/Tests.antt =====
-- The table of the variables at small inputs.
use sc_open.Prelude.{◌≡◌, refl, List, [], ◌∷◌}
use sc_open.TmpVariables.{new_variable}
use sc_open.TmpVariables.Search.{search_table, search_table-Finds}
use sc_open.Variables.{
  vt_user, vt_user_local, Entry, Place, new_entry, variable_put, variable_get, variable_delete,
}
use sc_open.Variables.Kept.{variable_put-InOrder}
use sc_open.Variables.Bases.{InOrder, LeavesOrder}
use sc_open.Variables.Scopes.{first_of, names_from, variable_get-first_of}
use sc_open.Variables.Deleted.{variable_delete_nothing}

abbrev some_place : Place
some_place = record {
  program_name = b'p' ∷ [];
  default_program_name = b'd' ∷ [];
  label = b'l' ∷ [];
}

-- The name (p)x.
abbrev some_table : List Entry
some_table = new_entry (b'(' ∷ b'p' ∷ b')' ∷ b'x' ∷ []) (b'1' ∷ []) vt_user ∷ []

some_table-InOrder : InOrder some_table
unfolding new_entry new_variable
some_table-InOrder = ((refl, tt), (tt, tt))

variable_put-InOrder_example :
    LeavesOrder
      (variable_put search_table some_place (b'x' ∷ []) (b'2' ∷ []) 0 vt_user_local some_table)
variable_put-InOrder_example =
    variable_put-InOrder search_table search_table-Finds some_place (b'x' ∷ []) (b'2' ∷ []) 0
      vt_user_local some_table some_table-InOrder

variable_get-first_of_example :
    variable_get search_table some_place (b'x' ∷ []) vt_user some_table
    ≡ first_of vt_user some_table (names_from (b'l' ∷ []) some_place vt_user (b'x' ∷ []))
variable_get-first_of_example =
    variable_get-first_of search_table search_table-Finds some_place (b'x' ∷ []) vt_user some_table
      some_table-InOrder

abbrev unsorted : List Entry → List Entry
unsorted t = t

variable_delete_nothing_example :
    variable_delete search_table unsorted some_place (b'x' ∷ []) some_table ≡ unsorted some_table
unfolding new_entry new_variable
variable_delete_nothing_example =
    variable_delete_nothing search_table unsorted b'p' b'x' [] [] (b'd' ∷ []) (b'l' ∷ []) some_table
      search_table-Finds some_table-InOrder (refl, tt) refl
