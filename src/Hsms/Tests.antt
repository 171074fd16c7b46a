-- ===== src/Hsms/Tests.antt =====
-- The theorems on HSMS at concrete inputs.
use sc_open.Prelude.{
  ℕ, ◌+◌, ◌≡◌, refl, inl, true, false, some, List, [], ◌∷◌, ◌++◌, set, get_or, arith,
}
use sc_open.Bytes.{to_wire}
use sc_open.Secs.{Transaction, expected, open_trans_table_add, open_trans_table_del}
use sc_open.Line.{failed, value}
use sc_open.Line.Laws.{clear}
use sc_open.Hsms.{recv_hsms_i}
use sc_open.Hsms.Frame.{frame, recv_hsms_i-frame}
use sc_open.Hsms.Frame.Pieces.{Spaced, spaced}
use sc_open.Hsms.Control.{Session, handled, answered, recv_hsms}
use sc_open.Hsms.Control.Replies.{recv_hsms-control, recv_hsms-reply}

abbrev reply_header : List ℕ
reply_header = 0 ∷ 1 ∷ 1 ∷ 2 ∷ 0 ∷ 0 ∷ 0 ∷ 0 ∷ 0 ∷ 7 ∷ []

abbrev select_request : List ℕ
select_request = 0xFF ∷ 0xFF ∷ 0 ∷ 0 ∷ 0 ∷ 1 ∷ 0 ∷ 0 ∷ 0 ∷ 3 ∷ []

-- A message of three body bytes that arrives in two pieces.
abbrev in_pieces : Spaced
in_pieces =
    (false, 0)
    ∷ (false, 0)
    ∷ (true, 0)
    ∷ (false, 13)
    ∷ (false, 0)
    ∷ (false, 1)
    ∷ (false, 1)
    ∷ (false, 2)
    ∷ (false, 0)
    ∷ (false, 0)
    ∷ (false, 0)
    ∷ (false, 0)
    ∷ (false, 0)
    ∷ (false, 7)
    ∷ (false, 0x41)
    ∷ (true, 1)
    ∷ (false, 0x58)
    ∷ []

abbrev select_pieces : Spaced
select_pieces =
    (false, 0)
    ∷ (false, 0)
    ∷ (true, 0)
    ∷ (false, 10)
    ∷ (false, 0xFF)
    ∷ (false, 0xFF)
    ∷ (false, 0)
    ∷ (false, 0)
    ∷ (false, 0)
    ∷ (false, 1)
    ∷ (false, 0)
    ∷ (false, 0)
    ∷ (false, 0)
    ∷ (false, 3)
    ∷ []

abbrev front_pieces : Spaced
front_pieces =
    (false, 0)
    ∷ (false, 0)
    ∷ (true, 0)
    ∷ (false, 13)
    ∷ (false, 0)
    ∷ (false, 1)
    ∷ (false, 1)
    ∷ (false, 2)
    ∷ (false, 0)
    ∷ (false, 0)
    ∷ (false, 0)
    ∷ (false, 0)
    ∷ (false, 0)
    ∷ (false, 7)
    ∷ []

abbrev three : List ℕ
three = 0x41 ∷ 1 ∷ 0x58 ∷ []

recv_hsms_i-frame_example :
    recv_hsms_i (clear (spaced in_pieces (failed ∷ [])) [] [])
    ≡ (value (reply_header, three), clear (failed ∷ []) [] [])
unfolding to_wire
recv_hsms_i-frame_example =
    recv_hsms_i-frame reply_header three in_pieces (failed ∷ []) [] [] refl (omega arith) refl tt
      refl

abbrev waiting : List Transaction
waiting =
    record { active = true; program_idx = 40; system_bytes = 7; timer_idx = 10; end_time = 145 }
    ∷ []

abbrev unused : List Transaction
unused =
    record { active = false; program_idx = 9; system_bytes = 6; timer_idx = 11; end_time = 90 } ∷ []

abbrev session : Session
session = record { table = waiting; numbers = record { saved = 0; current = 7 } }

recv_hsms-control_example :
    recv_hsms (λ h b. 0) 100 session (clear (spaced select_pieces []) [] []) ≡ (
      value (some (handled 2, session)),
      clear [] ([] ++ frame (set select_request 5 (get_or select_request 5 0 + 1)) []) [],
    )
unfolding to_wire
recv_hsms-control_example =
    recv_hsms-control (λ h b. 0) 100 session select_request select_pieces [] [] [] refl (inl refl)
      refl tt refl

recv_hsms-reply_example : recv_hsms (λ h b. 0) 120 session (clear (spaced in_pieces []) [] []) ≡ (
  value (
      some (
        answered (expected 40 10),
        record session { table = (open_trans_table_del waiting 120 7).1 },
      )),
  clear [] [] [],
)
unfolding to_wire open_trans_table_add
recv_hsms-reply_example =
    recv_hsms-reply (λ h b. 0) 100 40 7 10 45 120 session unused reply_header three in_pieces [] []
      [] ((λ e. omega arith), tt) refl (omega arith) refl (omega arith) refl refl (omega arith) refl
      refl tt refl
