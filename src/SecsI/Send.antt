-- ===== src/SecsI/Send.antt =====
-- send_secsI() of source/send_secs.c: one block is sent.
pub mod Handshake
use sc_open.Prelude.{
  ℕ, zero, suc, ◌+◌, Bool, true, false, Option, none, some, List, [], ◌∷◌, length, ◌==◌,
  if◌then◌else◌,
}
use sc_open.Secs.{enq, eot, ack, nak, secs_calc_checksum}
use sc_open.Line.{
  Line, value, ret, blocked, M, pure, return, ◌>>=◌, ◌>>◌, start_timer, stop_timer, my_readc,
  write_or, catch,
}

-- One round of the wait for EOT: `true` ends it. With the R-bit set (`rbit`, the master) an ENQ is
-- ignored; otherwise it is a contention, which the slave yields to.
unfoldable pub judge_eot : Bool → Option ℕ → M Bool
judge_eot rbit none l = (stop_timer 2 >> return 3) l
judge_eot rbit (some c) l =
    if c == eot
    then (stop_timer 2 >> pure true) l
    else if c == enq
    then (if rbit then (value false, l) else (stop_timer 2 >> return 2) l)
    else (value false, l)

-- The `while (1)` of the wait. Every round consumes an event, so a fuel above their number is
-- never used up.
unfoldable pub wait_eot : ℕ → Bool → M (Unit {0})
wait_eot zero rbit l = (blocked, l)
wait_eot (suc fuel) rbit l =
    let again = wait_eot fuel rbit in
    (do c ← my_readc; done ← judge_eot rbit c; if done then pure tt else again) l

unfoldable pub request : Bool → M (Unit {0})
request rbit l = catch 2 (start_timer 2 >> wait_eot (length l.events + 1) rbit) (return 1) l

-- The loops that write a byte at a time.
unfoldable pub write_all : List ℕ → M (Unit {0})
write_all [] = pure tt
write_all (b ∷ bs) = do write_or 3 b; write_all bs

-- The answer of the receiver: only ACK is a success.
unfoldable pub judge_ack : Option ℕ → M (Unit {0})
judge_ack none l = (stop_timer 2 >> return 3) l
judge_ack (some c) l = (stop_timer 2 >> (λ m. if c == ack then (value tt, m) else (ret 1, m))) l

unfoldable pub read_ack : M (Unit {0})
read_ack = catch 2 (do start_timer 2; c ← my_readc; judge_ack c) (return 1)

-- send_secsI(): return 1 asks for a retry, 2 is a contention and 3 an error of the line.
unfoldable pub send_secs_i : Bool → List ℕ → M (Unit {0})
send_secs_i rbit block = do
  write_or 3 enq
  request rbit
  write_or 3 (length block)
  write_all block
  write_or 3 (secs_calc_checksum block).0
  write_or 3 (secs_calc_checksum block).1
  read_ack
