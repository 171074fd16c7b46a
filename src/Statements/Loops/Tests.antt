-- ===== src/Statements/Loops/Tests.antt =====
-- Loops at concrete inputs.
use sc_open.Prelude.{◌≡◌, true, false, some, List, [], ◌∷◌}
use sc_open.Statements.{tt_next, tt_end_while, tt_other}
use sc_open.Statements.Blocks.{Block, done, word, else_mark, while_block, for_block, tokens}
use sc_open.Statements.Loops.{skip_body, break_loop, left_for, left_while, behind, loops_are_left}

abbrev inner_loops : Block false
inner_loops = word (for_block (while_block (word done) done) done)

abbrev rest_of_if : List (Block true)
rest_of_if = word (else_mark (while_block done done)) ∷ []

loops_are_left_example :
    (skip_body 0 (tokens inner_loops (tt_end_while ∷ tt_other ∷ [])) ≡ some (tt_other ∷ []))
    × (break_loop 0 0 (behind rest_of_if inner_loops (tt_next ∷ tt_other ∷ tt_other ∷ []))
        ≡ (left_for, tt_other ∷ []))
    × (break_loop 0 0 (behind rest_of_if inner_loops (tt_end_while ∷ tt_other ∷ []))
        ≡ (left_while, tt_other ∷ []))
loops_are_left_example = loops_are_left rest_of_if inner_loops tt_other (tt_other ∷ [])
