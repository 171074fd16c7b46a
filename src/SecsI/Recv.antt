-- ===== src/SecsI/Recv.antt =====
-- recv_secsI() and completion() of source/recv_secs.c: one block is received.
pub mod Accept
pub mod Reads
pub mod Sound
use sc_open.Prelude.{
  ℕ, zero, suc, ◌+◌, Bool, true, false, ◌||◌, ◌&&◌, Option, none, some, List, [], ◌∷◌, ltb, ◌==◌,
  length, if◌then◌else◌,
}
use sc_open.Secs.{enq, eot, ack, nak, secs_calc_checksum}
use sc_open.Line.{
  Line, Exit, value, ret, jump, blocked, M, pure, return, ◌>>=◌, ◌>>◌, start_timer, stop_timer,
  my_readc, my_writec, write_or, catch,
}

-- A read under the protocol timer k, which the caller has set up by `catch`.
unfoldable pub timed_read : ℕ → M (Option ℕ)
timed_read k = do start_timer k; c ← my_readc; stop_timer k; pure c

-- `if (my_readc(...)) return code;`
abbrev pub or_return : ℕ → Option ℕ → M ℕ
or_return code none = return code
or_return code (some c) = pure c

abbrev pub is_some : Option ℕ → Bool
is_some none = false
is_some (some c) = true

-- completion(): bytes are discarded until timer 1 goes off or a read fails. Every round but the
-- last consumes an event of the line, so a fuel above their number is never used up.
unfoldable pub completion_loop : ℕ → M (Unit {0})
completion_loop zero l = (blocked, l)
completion_loop (suc fuel) l =
    let again = completion_loop fuel in
    (do c ← catch 1 (timed_read 1) (pure none); if is_some c then again else pure tt) l

unfoldable pub completion : M (Unit {0})
completion l = completion_loop (length l.events + 1) l

-- NAK is sent and the block given up with return 2, or 1 if the line cannot be written.
unfoldable pub refuse : {A : Type 0} → M A
refuse = do write_or 1 nak; return 2

-- The ENQ that opens a transfer, unless the caller has read it already.
unfoldable pub wait_enq : Bool → M (Unit {0})
wait_enq true = pure tt
wait_enq false = do c ← my_readc; b ← or_return 1 c; if b == enq then pure tt else return 2

-- The size byte, under timer 2. An ENQ that is repeated is ignored. Fuel as in completion().
unfoldable pub size_loop : ℕ → M ℕ
size_loop zero l = (blocked, l)
size_loop (suc fuel) l =
    let again = size_loop fuel in
    (do c ← timed_read 2; b ← or_return 1 c; if b == enq then again else pure b) l

unfoldable pub read_size : M ℕ
read_size l = catch 2 (size_loop (length l.events + 1)) refuse l

unfoldable pub check_size : ℕ → M (Unit {0})
check_size size = if ltb size 10 || ltb 254 size then (do completion; refuse) else pure tt

-- The loop that reads `block[i]`, with the count of rounds left.
unfoldable pub read_block : ℕ → M (List ℕ)
read_block zero = pure []
read_block (suc n) = do
  c ← catch 1 (timed_read 1) refuse
  b ← or_return 1 c
  rest ← read_block n
  pure (b ∷ rest)

-- One byte of the checksum.
unfoldable pub read_check : M ℕ
read_check = do c ← catch 1 (timed_read 1) (do completion; refuse); or_return 1 c

unfoldable pub compare_checksum : List ℕ → ℕ → ℕ → M (Unit {0})
compare_checksum block c0 c1 =
    let checksum = secs_calc_checksum block in
    if (c0 == checksum.0) && (c1 == checksum.1) then pure tt else (do completion; refuse)

-- The part of recv_secsI() behind the size byte.
unfoldable pub recv_body : ℕ → M (List ℕ)
recv_body size = do
  check_size size
  block ← read_block size
  c0 ← read_check
  c1 ← read_check
  compare_checksum block c0 c1
  write_or 1 ack
  pure block

-- recv_secsI(): `flag` says that the ENQ has been read already.
unfoldable pub recv_secs_i : Bool → M (List ℕ)
recv_secs_i flag = do wait_enq flag; write_or 1 eot; size ← read_size; recv_body size
