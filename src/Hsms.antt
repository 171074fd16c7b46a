-- ===== src/Hsms.antt =====
-- source/send_hsms.c, source/recv_hsms.c and source/hsms.c: SECS messages and control messages over
-- a TCP connection.
pub mod Frame
pub mod Overrun
pub mod Control
mod Tests
use sc_open.Prelude.{
  ℕ, zero, suc, ◌+◌, ◌-◌, ◌%◌, ◌^◌, Bool, true, false, Option, none, some, List, [], ◌∷◌, ◌++◌,
  length, get_or, set, take, replicate, ◌==◌, if◌then◌else◌,
}
use sc_open.Bytes.{to_wire, from_wire}
use sc_open.Line.{
  Line, Exit, value, ret, jump, blocked, M, pure, return, ◌>>=◌, ◌>>◌, start_timer, stop_timer,
  my_readc, my_readx, my_write, write_or, catch,
}

abbrev pub max_read : ℕ
max_read = 2048

-- The loop that writes the body byte by byte.
unfoldable pub write_body : List ℕ → M (Unit {0})
write_body [] = pure tt
write_body (b ∷ bs) = do write_or 1 b; write_body bs

unfoldable pub write_front : List ℕ → M (Unit {0})
write_front bytes = do ok ← my_write bytes; if ok then pure tt else return 1

-- send_hsmsI(): the length (`10 + size`, a `uint32_t`) and the header in one write, then the body.
unfoldable pub send_hsms_i : List ℕ → List ℕ → M (Unit {0})
send_hsms_i header body = do
  write_front (to_wire 4 ((10 + length body) % 2 ^ 32) ++ take 10 header)
  write_body body

-- One byte of the length: timer 8 is stopped on every way out but its own jump.
unfoldable pub read_length_byte : M ℕ
read_length_byte = do
  c ← catch 8 (do start_timer 8; c ← my_readc; stop_timer 8; pure c) (return 1)
  elim c [ none ↦ return 1 | some b ↦ pure b ]

-- One byte of the header: a read error returns without stopping timer 8.
unfoldable pub read_header_byte : M ℕ
read_header_byte =
    catch 8
      (do
        start_timer 8
        c ← my_readc
        elim c [ none ↦ return 1 | some b ↦ (do stop_timer 8; pure b) ])
      (do stop_timer 8; return 1)

unfoldable pub read_bytes : M ℕ → ℕ → M (List ℕ)
read_bytes read zero = pure []
read_bytes read (suc n) = do b ← read; rest ← read_bytes read n; pure (b ∷ rest)

unfoldable pub read_chunk : M (List ℕ)
read_chunk = do
  r ←
      catch 8 (do start_timer 8; r ← my_readx max_read; stop_timer 8; pure r)
        (do stop_timer 8; return 1)
  elim r [ none ↦ return 1 | some bytes ↦ pure bytes ]

-- `while (i)`: `i` is a `uint32_t`, lowered by the size of each read. Every round consumes an event,
-- so a fuel above the number of events is never used up.
unfoldable pub read_rest : (fuel i : ℕ) → List ℕ → M (List ℕ)
read_rest zero i body l = (blocked, l)
read_rest (suc fuel) i body l =
    let more = (do
      bytes ← read_chunk
      read_rest fuel ((i + 2 ^ 32 - length bytes) % 2 ^ 32) (body ++ bytes)) in
    if i == 0 then (value body, l) else more l

-- recv_hsmsI(): the header and the body of a message.
unfoldable pub recv_hsms_i : M (List ℕ × List ℕ)
recv_hsms_i = do
  len ← read_bytes read_length_byte 4
  header ← read_bytes read_header_byte 10
  body ← (λ l. read_rest (length l.events + 1) ((from_wire len + 2 ^ 32 - 10) % 2 ^ 32) [] l)
  pure (header, body)
