-- ===== src/SecsI/Message/Assemble.antt =====
-- recv_secs() of source/recv_secs.c: the blocks of a message are put together.
pub mod Whole
pub mod Transfer
use sc_open.Prelude.{
  ℕ, zero, suc, ◌+◌, Bool, true, false, ◌&&◌, List, [], ◌∷◌, ◌++◌, length, take, drop, replicate,
  get_or, ◌==◌, if◌then◌else◌,
}
use sc_open.Line.{
  Line, Exit, value, blocked, M, pure, return, ◌>>=◌, ◌>>◌, start_timer, stop_timer, catch,
}
use sc_open.SecsI.Message.Header.{is_high}
use sc_open.SecsI.Recv.{recv_secs_i}

-- The loop variables of recv_secs().
pub record Assembly : Type 0 where
  pub first : Bool
  pub header : List ℕ
  pub last_header : List ℕ
  pub body : List ℕ

abbrev pub initial : Assembly
initial = record { first = true; header = replicate 10 0; last_header = replicate 10 0; body = [] }

-- The loop over the ten header bytes that looks for a difference.
unfoldable pub same_bytes : List ℕ → List ℕ → Bool
same_bytes [] ys = true
same_bytes (x ∷ xs) [] = false
same_bytes (x ∷ xs) (y ∷ ys) = x == y && same_bytes xs ys

-- What the loop does with a block: the first header is kept for the message, a block with the
-- header of the block before is discarded, and the rest of any other is appended to the message.
-- `last_header` is not set by the first block.
unfoldable pub absorb : Assembly → List ℕ → Assembly
absorb a block =
    if a.first
    then record a { first = false; header = take 10 block; body = a.body ++ drop 10 block }
    else if same_bytes a.last_header (take 10 block)
    then a
    else record a { last_header = take 10 block; body = a.body ++ drop 10 block }

-- `block[4] & 0x80`
unfoldable pub is_last : List ℕ → Bool
is_last block = is_high (get_or block 4 0)

-- The loop on the blocks of a message, without the line: it ends at the last block.
unfoldable pub assemble : Assembly → List (List ℕ) → Assembly
assemble a [] = a
assemble a (b ∷ bs) = let rest = assemble (absorb a b) bs in if is_last b then absorb a b else rest

-- The next block is awaited under timer 4.
unfoldable pub next_block_in_time : M (List ℕ)
next_block_in_time = catch 4 (start_timer 4 >> recv_secs_i false) (return 1)

-- The `while (1)` of recv_secs(). A round consumes an event at least, so a fuel above the number of
-- events is never used up.
unfoldable pub recv_loop : (fuel : ℕ) → M (List ℕ) → Assembly → M Assembly
recv_loop zero receive a l = (blocked, l)
recv_loop (suc fuel) receive a l =
    let more = recv_loop fuel next_block_in_time in
    (do
      block ← receive
      stop_timer 3
      stop_timer 4
      if is_last block then pure (absorb a block) else more (absorb a block))
      l

-- The part of recv_secs() up to the decoding: both timers are stopped however the loop ends.
unfoldable pub recv_message : Bool → M Assembly
recv_message flag l =
    let r = recv_loop (length l.events + 1) (recv_secs_i flag) initial l in
    (r.0, (stop_timer 4 (stop_timer 3 r.1).1).1)
