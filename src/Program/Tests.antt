-- ===== src/Program/Tests.antt =====
-- A small program.
use sc_open.Prelude.{◌≡◌, refl, some, List, [], ◌∷◌, ◌++◌, replicate, arith}
use sc_open.Program.{
  Token, State, null_token, form_of, save_token, save_all, saved_text, int_bytes, tt_string,
  tt_identifier,
}
use sc_open.Program.Sequence.{read_tokens, read_tokens-save_all}

abbrev tokens : List Token
tokens =
    record { kind = 41; text = [] }
    ∷ record { kind = tt_identifier; text = b'L' ∷ [] }
    ∷ record { kind = tt_string; text = 0 ∷ b'x' ∷ [] }
    ∷ []

read_tokens-save_all_example :
    read_tokens 5 (record { program = save_all tokens; program_idx = 0; saved_program_idx = 0 })
    ≡ some (tokens ++ replicate 2 null_token)
unfolding form_of save_all save_token saved_text int_bytes
read_tokens-save_all_example =
    read_tokens-save_all tokens 2 0 (refl, ((λ e. absurd (omega arith), tt), (omega arith, tt)))
      (omega arith)

abbrev label : State
label = record { program = 41 ∷ 5 ∷ b'L' ∷ 0 ∷ []; program_idx = 1; saved_program_idx = 0 }

abbrev behind : State
behind = record { program = 41 ∷ 5 ∷ b'L' ∷ 0 ∷ []; program_idx = 4; saved_program_idx = 1 }
