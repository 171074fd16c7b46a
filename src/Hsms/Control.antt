-- ===== src/Hsms/Control.antt =====
-- What is done with a message that has arrived, and how a connection is opened: recv_hsms() of
-- source/recv_hsms.c, send_hsmsII() of source/send_hsms.c and source/hsms.c.
pub mod Replies
use sc_open.Prelude.{
  ℕ, zero, suc, ◌+◌, ◌/◌, ◌%◌, ◌^◌, Bool, true, false, Option, none, some, List, [], ◌∷◌, ◌++◌,
  take, drop, get_or, set, ◌==◌, if◌then◌else◌,
}
use sc_open.Bytes.{to_wire, from_wire}
use sc_open.Secs.{
  Transaction, SystemBytes, Reply, expected, too_late, not_expected, open_trans_table_add,
  open_trans_table_del, secs_set_system_bytes, secs_inc_system_bytes,
}
use sc_open.Line.{
  Line, Exit, value, ret, jump, blocked, M, pure, return, ◌>>=◌, ◌>>◌, start_timer, stop_timer,
  catch,
}
use sc_open.Hsms.{send_hsms_i, recv_hsms_i}
use sc_open.SecsI.Message.Header.{set_high}

-- The statics of secs.c.
pub record Session : Type 0 where
  pub table : List Transaction
  pub numbers : SystemBytes

-- What recv_hsms() leaves to its caller; `none` where it does not write the caller's variable.
-- `stopped_timer` is the user timer that open_trans_table_del() stops.
pub record Handled : Type 0 where
  pub iret : ℕ
  pub primary_msg_flag : Option Bool
  pub program_idx : Option ℕ
  pub stopped_timer : Option ℕ

abbrev pub handled : ℕ → Handled
handled code = record {
  iret = code;
  primary_msg_flag = none;
  program_idx = none;
  stopped_timer = none;
}

unfoldable pub answered : Reply → Handled
answered (expected p timer) = record {
  iret = 0;
  primary_msg_flag = some false;
  program_idx = some p;
  stopped_timer = some timer;
}
answered too_late = record (handled 2) { primary_msg_flag = some false }
answered not_expected = record (handled 2) { primary_msg_flag = some false }

-- `stype == 0`: `decoded` is the return code of secs_decode() or secs_decode_no_arrays().
unfoldable pub deliver : (now decoded : ℕ) → Session → List ℕ → Handled × Session
deliver now decoded s header =
    let system_bytes : ℕ = from_wire (take 4 (drop 6 header)) in
    let reply = open_trans_table_del s.table now system_bytes in
    if get_or header 3 0 % 2 == 0 then (answered reply.0, record s { table = reply.1 }) else (
      record (handled decoded) { primary_msg_flag = some true },
      record s { numbers = secs_set_system_bytes s.numbers system_bytes },
    )

-- The answer to a control message: the header comes back with another stype. The outcome of the
-- write is reported and then not looked at.
unfoldable pub reply_control :
    List ℕ → ℕ → Session → Line → Exit (Option (Handled × Session)) × Line
reply_control header stype s l =
    (value (some (handled 2, s)), (send_hsms_i (set header 5 stype) [] l).1)

-- The branches of recv_hsms(); `none` is its FATAL exit on an unknown stype.
unfoldable pub dispatch :
    (decode : List ℕ → List ℕ → ℕ)
    → (now : ℕ) → Session
    → List ℕ
    → List ℕ
    → Line
    → Exit (Option (Handled × Session)) × Line
dispatch decode now s header body l =
    let stype : ℕ = get_or header 5 0 in
    if stype == 0
    then (value (some (deliver now (decode header body) s header)), l)
    else if stype == 1
    then reply_control header 2 s l
    else if stype == 5
    then reply_control header 6 s l
    else if stype == 9
    then (value (some (handled 2, s)), l)
    else (value none, l)

-- An error of recv_hsmsI() is passed on.
unfoldable pub received :
    (decode : List ℕ → List ℕ → ℕ)
    → (now : ℕ) → Session
    → Exit (List ℕ × List ℕ)
    → Line
    → Exit (Option (Handled × Session)) × Line
received decode now s (value m) l = dispatch decode now s m.0 m.1 l
received decode now s (ret code) l = (value (some (handled code, s)), l)
received decode now s (jump k) l = (jump k, l)
received decode now s blocked l = (blocked, l)

unfoldable pub recv_hsms :
    (decode : List ℕ → List ℕ → ℕ)
    → (now : ℕ) → Session
    → Line
    → Exit (Option (Handled × Session)) × Line
recv_hsms decode now s l = let r = recv_hsms_i l in received decode now s r.0 r.1

-- What secs_encode() leaves.
pub record Encoded : Type 0 where
  pub wait_bit : Bool
  pub stream : ℕ
  pub function : ℕ
  pub device_id : ℕ
  pub body : List ℕ

unfoldable pub data_header : Encoded → (system_bytes : ℕ) → List ℕ
data_header m system_bytes =
    (m.device_id / 2 ^ 8 % 256)
    ∷ m.device_id % 256
    ∷ set_high m.wait_bit (m.stream % 256)
    ∷ m.function % 256
    ∷ 0
    ∷ 0
    ∷ to_wire 4 system_bytes

-- send_hsmsII() behind a successful secs_encode(): the result is `*wait_flag` and the table. The
-- timer index is the result of start_timer(). A full table ends the program, the inner `none`.
unfoldable pub send_hsms_ii :
    (now program_idx timer_idx t3 : ℕ)
    → Encoded
    → (system_bytes : ℕ) → List Transaction
    → M (Option (Bool × List Transaction))
send_hsms_ii now program_idx timer_idx t3 m system_bytes table = do
  send_hsms_i (data_header m system_bytes) m.body
  pure (
      if m.wait_bit
      then elim (open_trans_table_add table now program_idx system_bytes timer_idx t3) [
        | none ↦ none
        | some t ↦ some (true, t)
      ]
      else some (false, table))

abbrev pub select_header : ℕ → List ℕ
select_header system_bytes = 0xFF ∷ 0xFF ∷ 0 ∷ 0 ∷ 0 ∷ 1 ∷ to_wire 4 system_bytes

-- The return code of recv_hsmsI(), whose message client_connect() only logs.
unfoldable pub select_code : Exit (List ℕ × List ℕ) → Exit ℕ
select_code (value m) = value 0
select_code (ret code) = value code
select_code (jump k) = jump k
select_code blocked = blocked

unfoldable pub receive_select : M ℕ
receive_select l = let r = recv_hsms_i l in (select_code r.0, r.1)

-- The wait of client_connect() for the Select Response, under timer 6: neither the expiry of the
-- timer nor another message sets `iret`, which the successful write has left at 0.
unfoldable pub await_select : M ℕ
await_select =
    catch 6 (do start_timer 6; code ← receive_select; stop_timer 6; pure code)
      (do stop_timer 6; pure 0)

-- client_connect(): its return code and the system bytes after it.
unfoldable pub client_connect : SystemBytes → Line → (Exit ℕ × Line) × SystemBytes
client_connect numbers l =
    let next = secs_inc_system_bytes numbers in
    ((do send_hsms_i (select_header next.0) []; await_select) l, next.1)
