-- ===== src/Items/EndToEnd.antt =====
-- From the tokens of a program on one side to the variables on the other.
use sc_open.Prelude.{ℕ, zero, Option, none, some, List}
use sc_open.Numbers.{Text}
use sc_open.TmpVariables.{Variable}
use sc_open.Items.Encode.{Encoding}
use sc_open.Items.Decode.{Result, returned, secs_decode}

-- What the receiver makes of a message that is sent, for which the encoder has to return 0.
unfoldable pub delivered :
    (print_float : List ℕ → Text) (prefix : Text) → List Variable → Encoding → Option Result
delivered print_float prefix table (Encoding.returned zero bytes) =
    some (secs_decode print_float prefix bytes table)
delivered print_float prefix table _ = none
