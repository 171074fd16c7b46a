-- ===== src/Labels/Tests.antt =====
-- The labels of a small program.
use Prim.Native.Nat.{Ordering}
use sc_open.Prelude.{ℕ, suc, ◌≡◌, refl, Option, none, some, List, [], ◌∷◌, arith}
use sc_open.Program.{
  State, form_of, decode_program_token, decode_form, string_at, get_program_token_no_eval,
  set_program_token_idx,
}
use sc_open.Labels.{
  Label, built, label_put, label_name, label_token, label_round, label_loop, label_build_idx_table,
  idx_cmp, label_get,
}
use sc_open.Labels.Order.{InOrder, label_build_idx_table-InOrder}
use sc_open.Labels.Lookup.{Found, Finds, LabelOf, label_get-build}

-- A search that keeps what bsearch() promises.
abbrev search_at : Ordering → Option ℕ → Option ℕ
search_at Ordering.eq r = some 0
search_at Ordering.lt none = none
search_at Ordering.lt (some i) = some (suc i)
search_at Ordering.gt none = none
search_at Ordering.gt (some i) = some (suc i)

unfoldable search_table : List Label → ℕ → Option ℕ
search_table [] k = none
search_table (l ∷ ls) k = search_at (idx_cmp k l) (search_table ls k)

search_at-Found :
    (o : Ordering) (l : Label) (k : ℕ) (ls : List Label) (r : Option ℕ)
    → idx_cmp k l ≡ o
    → Found ls k r
    → Found (l ∷ ls) k (search_at o r)
search_at-Found Ordering.eq l k ls r e f = (l, refl, e)
search_at-Found Ordering.lt l k ls none e f = ((λ h. cc), f)
search_at-Found Ordering.lt l k ls (some i) e f = f
search_at-Found Ordering.gt l k ls none e f = ((λ h. cc), f)
search_at-Found Ordering.gt l k ls (some i) e f = f

search_table-Found : (t : List Label) (k : ℕ) → Found t k (search_table t k)
unfolding search_table
search_table-Found [] k = tt
search_table-Found (l ∷ ls) k =
    search_at-Found (idx_cmp k l) l k ls (search_table ls k) refl (search_table-Found ls k)

search_table-Finds : Finds search_table
search_table-Finds t k ascending = search_table-Found t k

-- LABEL A, a token of one byte, LABEL B, END
abbrev program : State
program = record {
  program = 41 ∷ 5 ∷ b'A' ∷ 0 ∷ 3 ∷ 41 ∷ 5 ∷ b'B' ∷ 0 ∷ 29 ∷ [];
  program_idx = 0;
  saved_program_idx = 0;
}

label_build_idx_table-InOrder_example : InOrder program.program (label_build_idx_table program)
label_build_idx_table-InOrder_example = label_build_idx_table-InOrder program (omega arith)

abbrev labels : List Label
labels =
    record { name = b'A' ∷ []; lower = 4; upper = 9 }
    ∷ record { name = b'B' ∷ []; lower = 9; upper = 10 }
    ∷ []

program_labels : label_build_idx_table program ≡ built 0 labels
unfolding label_build_idx_table label_loop label_round label_token label_name label_put
    get_program_token_no_eval decode_program_token decode_form form_of string_at
    set_program_token_idx
program_labels = refl

label_get-build_example : LabelOf 5 labels (label_get search_table 5 labels)
label_get-build_example =
    label_get-build search_table program 0 5 labels search_table-Finds (omega arith) program_labels
