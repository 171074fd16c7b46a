-- ===== src/Statements/Loops.antt =====
-- source/while.c and source/break.c: how a WHILE whose condition is false skips its body, and how
-- BREAK_LOOP leaves a loop, over the same token types as in source/if.c.
mod Tests
use sc_open.Prelude.{
  ℕ, zero, suc, ◌≡◌, refl, ap, ◌∙◌, Bool, true, false, Option, none, some, List, [], ◌∷◌, drop,
}
use sc_open.Statements.{
  Token, tt_if, tt_else, tt_else_if, tt_end_if, tt_while, tt_end_while, tt_for, tt_next, tt_section,
  tt_other,
}
use sc_open.Statements.Blocks.{
  Block, done, word, else_mark, else_if_mark, if_block, while_block, for_block, tokens,
}

-- The loop of cmd_while() behind a false condition: the tokens behind the END_WHILE, or `none` at
-- the end of the program, which is its return 1.
unfoldable pub skip_body : ℕ → List Token → Option (List Token)
skip_body nest [] = none
skip_body nest (tt_while ∷ ts) = skip_body (suc nest) ts
skip_body zero (tt_end_while ∷ ts) = some ts
skip_body (suc nest) (tt_end_while ∷ ts) = skip_body nest ts
skip_body nest (tt_if ∷ ts) = skip_body nest ts
skip_body nest (tt_else ∷ ts) = skip_body nest ts
skip_body nest (tt_else_if ∷ ts) = skip_body nest ts
skip_body nest (tt_end_if ∷ ts) = skip_body nest ts
skip_body nest (tt_for ∷ ts) = skip_body nest ts
skip_body nest (tt_next ∷ ts) = skip_body nest ts
skip_body nest (tt_section ∷ ts) = skip_body nest ts
skip_body nest (tt_other ∷ ts) = skip_body nest ts

-- How cmd_break_loop() ends: behind the name of a NEXT, behind an END_WHILE (with while_break()), or
-- in front of a section or the end of the program, whose token is put back.
pub data Left : Type 0 where
  left_for left_while left_nothing : Left

-- cmd_break_loop() outside of a syntax check.
unfoldable pub break_loop : (for_nest while_nest : ℕ) → List Token → Left × List Token
break_loop f w [] = (left_nothing, [])
break_loop f w (tt_section ∷ ts) = (left_nothing, tt_section ∷ ts)
break_loop f w (tt_for ∷ ts) = break_loop (suc f) w ts
break_loop f w (tt_while ∷ ts) = break_loop f (suc w) ts
break_loop zero w (tt_next ∷ ts) = (left_for, drop 1 ts)
break_loop (suc f) w (tt_next ∷ ts) = break_loop f w ts
break_loop f zero (tt_end_while ∷ ts) = (left_while, ts)
break_loop f (suc w) (tt_end_while ∷ ts) = break_loop f w ts
break_loop f w (tt_if ∷ ts) = break_loop f w ts
break_loop f w (tt_else ∷ ts) = break_loop f w ts
break_loop f w (tt_else_if ∷ ts) = break_loop f w ts
break_loop f w (tt_end_if ∷ ts) = break_loop f w ts
break_loop f w (tt_other ∷ ts) = break_loop f w ts

skip_body-tokens :
    {b : Bool} (n : ℕ) (k : Block b) (ts : List Token) → skip_body n (tokens k ts) ≡ skip_body n ts
unfolding skip_body
skip_body-tokens n done ts = refl
skip_body-tokens n (word k) ts = skip_body-tokens n k ts
skip_body-tokens n (else_mark k) ts = skip_body-tokens n k ts
skip_body-tokens n (else_if_mark k) ts = skip_body-tokens n k ts
skip_body-tokens n (if_block body k) ts =
    skip_body-tokens n body (tt_end_if ∷ tokens k ts) ∙ skip_body-tokens n k ts
skip_body-tokens n (while_block body k) ts =
    skip_body-tokens (suc n) body (tt_end_while ∷ tokens k ts) ∙ skip_body-tokens n k ts
skip_body-tokens n (for_block body k) ts =
    skip_body-tokens n body (tt_next ∷ tt_other ∷ tokens k ts) ∙ skip_body-tokens n k ts

break_loop-tokens :
    {b : Bool} (f w : ℕ) (k : Block b) (ts : List Token)
    → break_loop f w (tokens k ts) ≡ break_loop f w ts
unfolding break_loop
break_loop-tokens f w done ts = refl
break_loop-tokens f w (word k) ts = break_loop-tokens f w k ts
break_loop-tokens f w (else_mark k) ts = break_loop-tokens f w k ts
break_loop-tokens f w (else_if_mark k) ts = break_loop-tokens f w k ts
break_loop-tokens f w (if_block body k) ts =
    break_loop-tokens f w body (tt_end_if ∷ tokens k ts) ∙ break_loop-tokens f w k ts
break_loop-tokens f w (while_block body k) ts =
    break_loop-tokens f (suc w) body (tt_end_while ∷ tokens k ts) ∙ break_loop-tokens f w k ts
break_loop-tokens f w (for_block body k) ts =
    break_loop-tokens (suc f) w body (tt_next ∷ tt_other ∷ tokens k ts) ∙ break_loop-tokens f w k ts

-- What stands between a BREAK_LOOP and the end of its loop: the rest of each IF around it, from the
-- inside, and the rest of the body of the loop.
abbrev pub behind : List (Block true) → Block false → List Token → List Token
behind [] body ts = tokens body ts
behind (k ∷ ks) body ts = tokens k (tt_end_if ∷ behind ks body ts)

break_loop-behind :
    (ks : List (Block true)) (body : Block false) (ts : List Token)
    → break_loop 0 0 (behind ks body ts) ≡ break_loop 0 0 ts
unfolding break_loop
break_loop-behind [] body ts = break_loop-tokens 0 0 body ts
break_loop-behind (k ∷ ks) body ts =
    break_loop-tokens 0 0 k (tt_end_if ∷ behind ks body ts) ∙ break_loop-behind ks body ts

-- A WHILE whose condition is false goes on behind its own END_WHILE, and a BREAK_LOOP, from within
-- whatever IFs, behind the NEXT and its name or the END_WHILE of its own loop.
pub loops_are_left :
    (ks : List (Block true)) (body : Block false) (name : Token) (ts : List Token)
    → (skip_body 0 (tokens body (tt_end_while ∷ ts)) ≡ some ts)
      × (break_loop 0 0 (behind ks body (tt_next ∷ name ∷ ts)) ≡ (left_for, ts))
      × (break_loop 0 0 (behind ks body (tt_end_while ∷ ts)) ≡ (left_while, ts))
unfolding skip_body break_loop
loops_are_left ks body name ts = (
  skip_body-tokens 0 body (tt_end_while ∷ ts),
  break_loop-behind ks body (tt_next ∷ name ∷ ts),
  break_loop-behind ks body (tt_end_while ∷ ts),
)
