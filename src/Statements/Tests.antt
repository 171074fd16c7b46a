-- ===== src/Statements/Tests.antt =====
-- The control statements at concrete inputs.
use sc_open.Prelude.{◌≡◌, refl, Bool, true, false, Option, none, some, List, [], ◌∷◌, arith}
use sc_open.Statements.{
  Token, tt_else, tt_else_if, tt_end_if, tt_other, tt_section, cmd_if, skip_branch, branch, stopped,
}
use sc_open.Statements.Blocks.{
  Block, done, word, else_mark, if_block, tokens, here, next, cmd_if_first_true,
}

-- A condition of one token, which is false if it is an ordinary one.
abbrev one_token : List Token → Option Bool × List Token
one_token [] = (none, [])
one_token (tt_other ∷ ts) = (some false, ts)
one_token (t ∷ ts) = (some true, ts)

abbrev nested : Block false
nested = word (if_block (word (else_mark (word done))) (word done))

-- IF false, a nested IF with an ELSE, ELSE_IF true.
abbrev second_true : List Token
second_true = tt_other ∷ tokens nested (tt_else_if ∷ tt_section ∷ tt_other ∷ tt_end_if ∷ [])

second_true_run : cmd_if one_token 5 second_true ≡ (0, tt_other ∷ tt_end_if ∷ [])
unfolding cmd_if branch stopped skip_branch
second_true_run = refl

cmd_if_first_true_example : cmd_if one_token 5 second_true ≡ (0, tt_other ∷ tt_end_if ∷ [])
cmd_if_first_true_example =
    cmd_if_first_true one_token 1 5 second_true (tt_section ∷ tt_other ∷ tt_end_if ∷ [])
      (tt_other ∷ tt_end_if ∷ []) (next nested (tt_section ∷ tt_other ∷ tt_end_if ∷ []) refl here)
      (omega arith) refl

abbrev none_true : List Token
none_true =
    tt_other ∷ tokens nested (tt_else_if ∷ tt_other ∷ tokens nested (tt_else ∷ tt_other ∷ []))
