-- ===== src/SecsI/Message/Split.antt =====
-- The block loop of send_secsII() in source/send_secs.c.
pub mod Whole
use sc_open.Prelude.{
  ℕ, zero, suc, ◌+◌, ◌-◌, min, Bool, true, false, List, [], ◌∷◌, ◌++◌, take, drop, ◌==◌,
  if◌then◌else◌,
}
use sc_open.Line.{Line, value, blocked, M, pure, ◌>>=◌, ◌>>◌}
use sc_open.SecsI.Message.Header.{Header, make_header}

-- What secs_encode(), the connection and the caller fix of every header of a message.
pub record Outgoing : Type 0 where
  pub rbit : Bool
  pub wait_bit : Bool
  pub device_id : ℕ
  pub stream : ℕ
  pub function : ℕ
  pub system_bytes : ℕ

unfoldable pub block_header : Outgoing → Bool → ℕ → List ℕ
block_header o last num = make_header (record {
  rbit = o.rbit;
  wait_bit = o.wait_bit;
  device_id = o.device_id;
  stream = o.stream;
  function = o.function;
  last = last;
  block_num = num;
  system_bytes = o.system_bytes;
})

-- The block that one round of the loop builds from `msg_size`, the bytes at `msg_ptr` and
-- `block_num`, and the `msg_size` that it leaves.
unfoldable pub next_size : ℕ → ℕ
next_size msg_size = msg_size - min 244 msg_size

unfoldable pub next_block : Outgoing → ℕ → List ℕ → ℕ → List ℕ
next_block o msg_size ptr num =
    block_header o (next_size msg_size == 0) num ++ take (min 244 msg_size) ptr

-- The `while (1)` over the blocks. `attempt` is the loop that sends one block with its retries; it
-- leaves the function by its return code when it gives up. The fuel bounds the rounds, of which
-- there are at most one more than bytes.
unfoldable pub send_blocks :
    (List ℕ → M (Unit {0})) → (fuel : ℕ) → Outgoing → (msg_size : ℕ) → List ℕ → ℕ → M (Unit {0})
send_blocks attempt zero o msg_size ptr num l = (blocked, l)
send_blocks attempt (suc fuel) o msg_size ptr num l =
    let more =
      send_blocks attempt fuel o (next_size msg_size) (drop (min 244 msg_size) ptr) (num + 1) in
    (attempt (next_block o msg_size ptr num)
        >> (λ m. if next_size msg_size == 0 then (value tt, m) else more m))
      l

-- send_secsII() behind a successful secs_encode(): `msg_size` is set from the encoded message and
-- then, before the loop, to 0.
unfoldable pub send_secs_message : (List ℕ → M (Unit {0})) → Outgoing → List ℕ → M (Unit {0})
send_secs_message attempt o body =
    let msg_size : ℕ = 0 in send_blocks attempt (msg_size + 1) o msg_size body 1

-- The blocks of the loop, for every round of which the block is sent.
unfoldable pub blocks : (fuel : ℕ) → Outgoing → (msg_size : ℕ) → List ℕ → ℕ → List (List ℕ)
blocks zero o msg_size ptr num = []
blocks (suc fuel) o msg_size ptr num =
    let more = blocks fuel o (next_size msg_size) (drop (min 244 msg_size) ptr) (num + 1) in
    next_block o msg_size ptr num ∷ (if next_size msg_size == 0 then [] else more)
