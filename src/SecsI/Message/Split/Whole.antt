-- ===== src/SecsI/Message/Split/Whole.antt =====
-- The blocks of a message: what the loop of send_secsII() sends, and what it would need to send.
use sc_open.Prelude.{
  ℕ, zero, suc, ◌+◌, ◌≤◌, ◌<◌, min, ◌≡◌, refl, ap, ◌∙◌, Bool, true, false, List, [], ◌∷◌, length,
  take, drop, All, ◌==◌, if◌then◌else◌, Bool-cases, inl, inr, length-take, length-append,
  append-nil, arith,
}
use sc_open.Line.{Line, value, M}
use sc_open.SecsI.Message.Header.{make_header}
use sc_open.SecsI.Message.Split.{
  Outgoing, block_header, next_size, next_block, send_blocks, send_secs_message, blocks,
}

pub length-block_header :
    (o : Outgoing) (last : Bool) (num : ℕ) → length (block_header o last num) ≡ 10
unfolding block_header make_header
length-block_header o last num = refl

abbrev pub put_all : (List ℕ → Line → Line) → List (List ℕ) → Line → Line
put_all put [] l = l
put_all put (b ∷ bs) l = put_all put bs (put b l)

module _ (attempt : List ℕ → M (Unit {0})) (put : List ℕ → Line → Line)
    (succeeds : (b : List ℕ) (l : Line) → attempt b l ≡ (value tt, put b l)) where
  -- The loop sends exactly the blocks of the list, in order.
  pub send_blocks-blocks :
      (fuel : ℕ) (o : Outgoing) (msg_size : ℕ) (ptr : List ℕ) (num : ℕ) (l : Line)
      → msg_size < fuel
      → send_blocks attempt fuel o msg_size ptr num l
        ≡ (value tt, put_all put (blocks fuel o msg_size ptr num) l)
  unfolding send_blocks blocks
  send_blocks-blocks zero o msg_size ptr num l h = absurd (omega arith)
  send_blocks-blocks (suc fuel) o msg_size ptr num l h =
      rw (succeeds (next_block o msg_size ptr num) l) (elim (Bool-cases (next_size msg_size == 0)) [
        | inl p ↦ rw p
        | inr p ↦ rw p (
            send_blocks-blocks fuel o (next_size msg_size) (drop (min 244 msg_size) ptr) (num + 1)
              (put (next_block o msg_size ptr num) l) (shrinks p))
      ])
    where
      shrinks : (next_size msg_size == 0) ≡ false → next_size msg_size < fuel
      shrinks p = unfold next_size in ground arith

-- Whatever message secs_encode() has built, one block is sent, and it holds the header alone: the
-- loop starts from `msg_size = 0`.
pub send_secs_message_empty :
    (attempt : List ℕ → M (Unit {0})) (put : List ℕ → Line → Line) (o : Outgoing) (body : List ℕ)
    (l : Line)
    → ((b : List ℕ) (k : Line) → attempt b k ≡ (value tt, put b k))
    → send_secs_message attempt o body l ≡ (value tt, put (block_header o true 1) l)
unfolding send_secs_message blocks next_size next_block
send_secs_message_empty attempt put o body l succeeds =
    send_blocks-blocks attempt put succeeds 1 o 0 body 1 l (omega arith)
    ∙ ap (λ b. (value tt, put b l)) (append-nil (block_header o true 1))

All-if :
    (P : List ℕ → Type 0) (t : Bool) (xs : List (List ℕ)) → All P xs → All P (if t then [] else xs)
All-if P true xs a = tt
All-if P false xs a = a

-- Every block is a header and at most 244 bytes, so that its size fits the size byte.
pub blocks_sizes :
    (fuel : ℕ) (o : Outgoing) (msg_size : ℕ) (ptr : List ℕ) (num : ℕ)
    → All (λ b. (10 ≤ length b) × (length b ≤ 254)) (blocks fuel o msg_size ptr num)
unfolding blocks next_block
blocks_sizes zero o msg_size ptr num = tt
blocks_sizes (suc fuel) o msg_size ptr num =
    let header : List ℕ = block_header o (next_size msg_size == 0) num in
    let part : List ℕ = take (min 244 msg_size) ptr in
    (
      omega (
        arith,
        length-append header part,
        length-block_header o (next_size msg_size == 0) num,
        length-take (min 244 msg_size) ptr,
      ),
      All-if (λ b. (10 ≤ length b) × (length b ≤ 254)) (next_size msg_size == 0)
          (blocks fuel o (next_size msg_size) (drop (min 244 msg_size) ptr) (num + 1))
          (blocks_sizes fuel o (next_size msg_size) (drop (min 244 msg_size) ptr) (num + 1)),
    )
