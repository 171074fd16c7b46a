-- ===== src/Statements/Blocks.antt =====
-- Well-nested statements are skipped as a whole.
use sc_open.Prelude.{
  ℕ, zero, suc, ◌<◌, ◌⊎◌, inl, inr, arith, ◌≡◌, refl, ap, ◌∙◌, Bool, true, false, Option, some,
  List, ◌∷◌,
}
use sc_open.Statements.{
  Token, tt_if, tt_else, tt_else_if, tt_end_if, tt_while, tt_end_while, tt_for, tt_next, tt_other,
  skip_branch, skip_branches, cmd_else, cmd_if, branch, stopped,
}

-- A sequence of complete statements; `true` says that it stands in an IF, whose branches an ELSE or
-- an ELSE_IF divides.
pub data Block : Bool → Type 0 where
  done : {b : Bool} → Block b
  word : {b : Bool} → Block b → Block b
  else_mark : Block true → Block true
  else_if_mark : Block true → Block true
  if_block : {b : Bool} → Block true → Block b → Block b
  while_block : {b : Bool} → Block false → Block b → Block b
  for_block : {b : Bool} → Block false → Block b → Block b

-- The tokens of a block in front of others.
abbrev pub tokens : {b : Bool} → Block b → List Token → List Token
tokens done ts = ts
tokens (word k) ts = tt_other ∷ tokens k ts
tokens (else_mark k) ts = tt_else ∷ tokens k ts
tokens (else_if_mark k) ts = tt_else_if ∷ tokens k ts
tokens (if_block body k) ts = tt_if ∷ tokens body (tt_end_if ∷ tokens k ts)
tokens (while_block body k) ts = tt_while ∷ tokens body (tt_end_while ∷ tokens k ts)
tokens (for_block body k) ts = tt_for ∷ tokens body (tt_next ∷ tt_other ∷ tokens k ts)

-- Within an IF the loop is one level up at least.
abbrev level : Bool → ℕ → ℕ
level true n = suc n
level false n = n

skip_branch-tokens :
    {b : Bool} (n : ℕ) (k : Block b) (ts : List Token)
    → skip_branch (level b n) (tokens k ts) ≡ skip_branch (level b n) ts
unfolding skip_branch
skip_branch-tokens n done ts = refl
skip_branch-tokens n (word k) ts = skip_branch-tokens n k ts
skip_branch-tokens n (else_mark k) ts = skip_branch-tokens n k ts
skip_branch-tokens n (else_if_mark k) ts = skip_branch-tokens n k ts
skip_branch-tokens {b = b} n (if_block body k) ts =
    skip_branch-tokens (level b n) body (tt_end_if ∷ tokens k ts) ∙ skip_branch-tokens n k ts
skip_branch-tokens {b = b} n (while_block body k) ts =
    skip_branch-tokens (level b n) body (tt_end_while ∷ tokens k ts) ∙ skip_branch-tokens n k ts
skip_branch-tokens {b = b} n (for_block body k) ts =
    skip_branch-tokens (level b n) body (tt_next ∷ tt_other ∷ tokens k ts)
    ∙ skip_branch-tokens n k ts

skip_branches-tokens :
    {b : Bool} (n : ℕ) (k : Block b) (ts : List Token)
    → skip_branches n (tokens k ts) ≡ skip_branches n ts
unfolding skip_branches
skip_branches-tokens n done ts = refl
skip_branches-tokens n (word k) ts = skip_branches-tokens n k ts
skip_branches-tokens n (else_mark k) ts = skip_branches-tokens n k ts
skip_branches-tokens n (else_if_mark k) ts = skip_branches-tokens n k ts
skip_branches-tokens {b = b} n (if_block body k) ts =
    skip_branches-tokens (suc n) body (tt_end_if ∷ tokens k ts) ∙ skip_branches-tokens n k ts
skip_branches-tokens {b = b} n (while_block body k) ts =
    skip_branches-tokens n body (tt_end_while ∷ tokens k ts) ∙ skip_branches-tokens n k ts
skip_branches-tokens {b = b} n (for_block body k) ts =
    skip_branches-tokens n body (tt_next ∷ tt_other ∷ tokens k ts) ∙ skip_branches-tokens n k ts

-- The rest of the branches of an IF, behind one that has been run, are skipped up to the END_IF that
-- belongs to it.
pub cmd_else_skips :
    (branches : Block true) (ts : List Token)
    → cmd_else (tokens branches (tt_end_if ∷ ts)) ≡ (0, ts)
unfolding cmd_else skip_branches
cmd_else_skips branches ts = ap (λ r. (0, r)) (skip_branches-tokens 0 branches (tt_end_if ∷ ts))

-- The conditions of an IF and of ELSE_IFs behind it, n in all, that are false: the last of them is
-- followed by `us`.
pub data Falls (expression : List Token → Option Bool × List Token)
    : ℕ → List Token → List Token → Type 0 where
  here : {ts : List Token} → Falls expression 0 ts ts
  next :
      {n : ℕ} {ts us : List Token} (body : Block false) (k : List Token)
      → expression ts ≡ (some false, tokens body (tt_else_if ∷ k))
      → Falls expression n k us
      → Falls expression (suc n) ts us

module _ (expression : List Token → Option Bool × List Token) where
  fall :
      (fuel : ℕ) (body : Block false) (ts k : List Token)
      → expression ts ≡ (some false, tokens body (tt_else_if ∷ k))
      → cmd_if expression (suc fuel) ts ≡ (0, (cmd_if expression fuel k).1)
  unfolding cmd_if branch stopped skip_branch
  fall fuel body ts k e = rw (e, skip_branch-tokens 0 body (tt_else_if ∷ k))

  -- After conditions that are false, the branch of the first one that is true is run: the program
  -- goes on behind it. A fuel above the number of the false conditions is enough.
  pub cmd_if_first_true :
      (n fuel : ℕ) (ts us k : List Token)
      → Falls expression n ts us
      → n < fuel
      → expression us ≡ (some true, k)
      → cmd_if expression fuel ts ≡ (0, k)
  unfolding cmd_if branch
  cmd_if_first_true n zero ts us k falls h e = absurd (omega arith)
  cmd_if_first_true n (suc fuel) ts us k here h e = rw e
  cmd_if_first_true n (suc fuel) ts us k (next {n = m} body j f falls) h e =
      fall fuel body ts j f
      ∙ ap (λ r. (0, r.1)) (cmd_if_first_true m fuel j us k falls (omega arith) e)

  -- After conditions that are all false, the program goes on behind the ELSE or the END_IF that
  -- belongs to the IF.
  pub cmd_if_all_false :
      (n fuel : ℕ) (ts us k : List Token) (body : Block false) (end : Token)
      → Falls expression n ts us
      → n < fuel
      → expression us ≡ (some false, tokens body (end ∷ k))
      → (end ≡ tt_else) ⊎ (end ≡ tt_end_if)
      → cmd_if expression fuel ts ≡ (0, k)
  unfolding cmd_if branch stopped skip_branch
  cmd_if_all_false n zero ts us k body end falls h e p = absurd (omega arith)
  cmd_if_all_false n (suc fuel) ts us k body end here h e (inl p) =
      rw (e, skip_branch-tokens 0 body (end ∷ k), p)
  cmd_if_all_false n (suc fuel) ts us k body end here h e (inr p) =
      rw (e, skip_branch-tokens 0 body (end ∷ k), p)
  cmd_if_all_false n (suc fuel) ts us k body end (next {n = m} b j f falls) h e p =
      fall fuel b ts j f
      ∙ ap (λ r. (0, r.1)) (cmd_if_all_false m fuel j us k body end falls (omega arith) e p)
