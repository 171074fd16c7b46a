-- ===== src/Statements.antt =====
-- source/if.c: how IF, ELSE and ELSE_IF skip the tokens of the branches that are not run. A program is the sequence of the types of the tokens that are still to
-- be read; get_program_token_no_eval() behind its end gives TT_NULL_TOKEN. `nest` does not wrap.
pub mod Blocks
pub mod Loops
mod Tests
use sc_open.Prelude.{ℕ, zero, suc, Bool, true, false, Option, none, some, List, [], ◌∷◌}

-- The types that the skipping looks at. TT_AFTER, TT_BEGIN, TT_END and TT_LABEL are one here, as
-- they are treated alike, and so are all other types.
pub data Token : Type 0 where
  tt_if tt_else tt_else_if tt_end_if : Token
  tt_while tt_end_while tt_for tt_next : Token
  tt_section tt_other : Token

-- Where the loop of cmd_if() leaves off.
pub data Stop : Type 0 where
  at_null at_else at_else_if at_end_if : Stop

-- The loop of cmd_if() behind a false condition.
unfoldable pub skip_branch : ℕ → List Token → Stop × List Token
skip_branch nest [] = (at_null, [])
skip_branch nest (tt_if ∷ ts) = skip_branch (suc nest) ts
skip_branch zero (tt_else ∷ ts) = (at_else, ts)
skip_branch (suc nest) (tt_else ∷ ts) = skip_branch (suc nest) ts
skip_branch zero (tt_else_if ∷ ts) = (at_else_if, ts)
skip_branch (suc nest) (tt_else_if ∷ ts) = skip_branch (suc nest) ts
skip_branch zero (tt_end_if ∷ ts) = (at_end_if, ts)
skip_branch (suc nest) (tt_end_if ∷ ts) = skip_branch nest ts
skip_branch nest (tt_while ∷ ts) = skip_branch nest ts
skip_branch nest (tt_end_while ∷ ts) = skip_branch nest ts
skip_branch nest (tt_for ∷ ts) = skip_branch nest ts
skip_branch nest (tt_next ∷ ts) = skip_branch nest ts
skip_branch nest (tt_section ∷ ts) = skip_branch nest ts
skip_branch nest (tt_other ∷ ts) = skip_branch nest ts

-- The loop of cmd_else() and cmd_else_if(), which are reached when a branch has been run.
unfoldable pub skip_branches : ℕ → List Token → List Token
skip_branches nest [] = []
skip_branches nest (tt_if ∷ ts) = skip_branches (suc nest) ts
skip_branches zero (tt_end_if ∷ ts) = ts
skip_branches (suc nest) (tt_end_if ∷ ts) = skip_branches nest ts
skip_branches nest (tt_else ∷ ts) = skip_branches nest ts
skip_branches nest (tt_else_if ∷ ts) = skip_branches nest ts
skip_branches nest (tt_while ∷ ts) = skip_branches nest ts
skip_branches nest (tt_end_while ∷ ts) = skip_branches nest ts
skip_branches nest (tt_for ∷ ts) = skip_branches nest ts
skip_branches nest (tt_next ∷ ts) = skip_branches nest ts
skip_branches nest (tt_section ∷ ts) = skip_branches nest ts
skip_branches nest (tt_other ∷ ts) = skip_branches nest ts

-- cmd_else() and cmd_else_if() return 0, also where they meet the end of the program.
unfoldable pub cmd_else : List Token → ℕ × List Token
cmd_else ts = (0, skip_branches 0 ts)

-- What cmd_if() does where its loop leaves off; `again` are the tokens that its call of itself
-- leaves, at an ELSE_IF. The result of that call is not looked at.
unfoldable pub stopped : Stop → List Token → (again : List Token) → ℕ × List Token
stopped at_null ts again = (1, ts)
stopped at_else ts again = (0, ts)
stopped at_end_if ts again = (0, ts)
stopped at_else_if ts again = (0, again)

-- The condition: `none` for an error of expression(), or whether atoi() of its value is not 0.
unfoldable pub branch : Option Bool → List Token → (skipped : ℕ × List Token) → ℕ × List Token
branch none ts skipped = (1, ts)
branch (some true) ts skipped = (0, ts)
branch (some false) ts skipped = skipped

-- cmd_if() outside of a syntax check. The fuel bounds its calls of itself; `expression` leaves the
-- tokens behind the condition.
unfoldable pub cmd_if :
    (expression : List Token → Option Bool × List Token) → (fuel : ℕ) → List Token → ℕ × List Token
cmd_if expression zero ts = (1, ts)
cmd_if expression (suc fuel) ts =
    let condition = expression ts in
    let skip = skip_branch 0 condition.1 in
    let again = cmd_if expression fuel skip.1 in
    branch condition.0 condition.1 (stopped skip.0 skip.1 again.1)
