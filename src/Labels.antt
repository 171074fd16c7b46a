-- ===== src/Labels.antt =====
-- source/label.c: the table of the labels of a program, and the label of a place in it. The table
-- keeps indexes as int32_t, which are natural numbers here as long as the program has fewer than
-- 2 ^ 31 bytes; a longer one is told apart and not modelled. The index -1 is `none`.
pub mod Order
pub mod Lookup
mod Tests
use Prim.Native.Nat.{Ordering}
use sc_open.Prelude.{
  ℕ, zero, suc, ◌+◌, ◌^◌, Bool, true, false, ◌||◌, Option, none, some, List, [], ◌∷◌, ◌++◌, get_or,
  length, ltb, ◌==◌, if◌then◌else◌,
}
use sc_open.Program.{
  Token, State, Text, tt_null_token, tt_identifier, get_program_token_no_eval,
  set_program_token_idx,
}

abbrev pub tt_after : ℕ
tt_after = 18

abbrev pub tt_end : ℕ
tt_end = 29

abbrev pub tt_label : ℕ
tt_label = 41

pub record Label : Type 0 where
  pub name : Text
  pub lower : ℕ
  pub upper : ℕ

-- The label that is open: its name and lower_idx.
abbrev pub Open : Type 0
Open = Option (Text × ℕ)

-- label_put(), where a label is open.
unfoldable pub label_put : Open → (upper : ℕ) → List Label → List Label
label_put none upper table = table
label_put (some (name, lower)) upper table =
    table ++ record { name = name; lower = lower; upper = upper } ∷ []

-- How a round of the loop ends: another round, or a return with iret.
pub data Round : Type 0 where
  more : State → Open → List Label → Round
  stop : (iret : ℕ) → List Label → Round
  outside : Round

-- The round of a label: the token that must be its name.
unfoldable pub label_name : Option (Token × State) → Open → List Label → Round
label_name none o table = outside
label_name (some (t, s)) o table =
    if t.kind == tt_identifier
    then more s (some (t.text, s.program_idx)) (label_put o s.program_idx table)
    else stop 1 table

unfoldable pub label_token : Token → State → Open → List Label → Round
label_token t s o table =
    if t.kind == tt_after || t.kind == tt_label
    then label_name (get_program_token_no_eval s) o table
    else if t.kind == tt_end
    then more s none (label_put o s.program_idx table)
    else if t.kind == tt_null_token
    then stop 0 (label_put o s.program_idx table)
    else more s o table

unfoldable pub label_round : Option (Token × State) → Open → List Label → Round
label_round none o table = outside
label_round (some (t, s)) o table = label_token t s o table

pub data Built : Type 0 where
  built : (iret : ℕ) → List Label → Built
  -- The program ends inside a token.
  broken : Built
  -- The program has indexes that are no int32_t.
  too_long : Built
  out_of_fuel : Built

abbrev pub next_round : Round → (State → Open → List Label → Built) → Built
next_round (more s o table) f = f s o table
next_round (stop iret table) f = built iret table
next_round outside f = broken

unfoldable pub label_loop : ℕ → State → Open → List Label → Built
label_loop zero s o table = out_of_fuel
label_loop (suc fuel) s o table =
    next_round (label_round (get_program_token_no_eval s) o table) (label_loop fuel)

-- label_build_idx_table(): each round takes a byte at least, so the length of the program is fuel
-- enough.
unfoldable pub label_build_idx_table : State → Built
label_build_idx_table s =
    if ltb (length s.program) (2 ^ 31)
    then label_loop (suc (length s.program)) (set_program_token_idx 0 s) none []
    else too_long

-- idx_cmp(), of which the first argument is a key with an index alone.
unfoldable pub idx_cmp : (idx : ℕ) → Label → Ordering
idx_cmp idx j =
    if ltb idx j.lower then Ordering.lt else if ltb j.upper idx then Ordering.gt else Ordering.eq

-- bsearch() with idx_cmp(), of the C library: the index of an entry that compares equal.
abbrev pub Search : Type 0
Search = List Label → ℕ → Option ℕ

abbrev pub label_found : List Label → Option ℕ → Text
label_found table none = []
label_found table (some i) = (get_or table i (record { name = []; lower = 0; upper = 0 })).name

-- label_get(), where the cast of a larger index is negative, in front of every label.
unfoldable pub label_get : Search → ℕ → List Label → Text
label_get bsearch idx [] = []
label_get bsearch idx (l ∷ ls) =
    if ltb idx (2 ^ 31) then label_found (l ∷ ls) (bsearch (l ∷ ls) idx) else []
