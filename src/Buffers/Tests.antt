-- ===== src/Buffers/Tests.antt =====
-- Runs on the two buffers.
use sc_open.Prelude.{none, List, [], ◌∷◌, arith}
use sc_open.Buffers.{init_buffer, init_binary_buffer}
use sc_open.Buffers.Binary
use sc_open.Buffers.Binary.Runs as BinaryRuns
use sc_open.Buffers.Strings
use sc_open.Buffers.Strings.Runs as StringRuns

abbrev appends : List BinaryRuns.Operation
appends = BinaryRuns.Operation.cat (1 ∷ 0 ∷ []) ∷ BinaryRuns.Operation.cpy (7 ∷ []) ∷ []

perform_all-Gives_example :
    Binary.Gives
      (BinaryRuns.perform_all init_binary_buffer appends)
      (BinaryRuns.meaning_all [] appends)
perform_all-Gives_example =
    BinaryRuns.perform_all-Gives appends init_binary_buffer [] BinaryRuns.init_binary_buffer-Holds
      (unfold BinaryRuns.meaning in (omega arith, (omega arith, tt)))

abbrev writes : List StringRuns.Operation
writes =
    StringRuns.Operation.cat (b'o' ∷ b'p' ∷ [])
    ∷ StringRuns.Operation.prefix (b's' ∷ b't' ∷ [])
    ∷ StringRuns.Operation.nlcpy (b'g' ∷ b'o' ∷ []) (b'x' ∷ [])
    ∷ []

perform_all-Gives_text_example :
    Strings.Gives (StringRuns.perform_all init_buffer writes) (StringRuns.meaning_all none writes)
perform_all-Gives_text_example =
    StringRuns.perform_all-Gives_text writes init_buffer none StringRuns.init_buffer-Holds (
      unfold StringRuns.meaning in
      (
        tt,
        omega arith,
        (
          (
            (λ e. absurd (omega arith), (λ e. absurd (omega arith), tt)),
            (λ e. absurd (omega arith), (λ e. absurd (omega arith), tt)),
          ),
          omega arith,
          ((λ e. absurd (omega arith), (λ e. absurd (omega arith), tt)), omega arith, tt),
        ),
      ))
