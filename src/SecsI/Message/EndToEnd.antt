-- ===== src/SecsI/Message/EndToEnd.antt =====
-- The two ends of source/send_secs.c and source/recv_secs.c together: the blocks that the loop of
-- send_secsII() makes of a message, received by recv_secs().
use sc_open.Prelude.{
  ℕ, zero, suc, ◌+◌, ◌*◌, ◌^◌, ◌<◌, ◌≡◌, refl, ◌∙◌, false, true, map, ◌++◌, inl, inr, List, [], ◌∷◌,
  length, All, drop, min, ◌==◌, if◌then◌else◌, arith, Bool-cases,
}
use sc_open.Secs.{enq, eot, ack}
use sc_open.Line.{Event, got, value, M, mem}
use sc_open.Line.Laws.{clear}
use sc_open.SecsI.Message.Split.{
  Outgoing, block_header, next_size, next_block, blocks, send_blocks, send_secs_message,
}
use sc_open.SecsI.Recv.Accept.{transmission}
use sc_open.SecsI.Message.Header.{make_header}
use sc_open.SecsI.Message.Retry.{attempts, attempts-success}
use sc_open.SecsI.Message.Split.Whole.{blocks_sizes}
use sc_open.SecsI.Message.Assemble.{Assembly, initial, absorb, is_last, assemble, recv_message}
use sc_open.SecsI.Message.Assemble.Whole.{take-next_block, is_last-next_block, assemble-blocks_body}
use sc_open.SecsI.Message.Assemble.Transfer.{
  arrivals, acks, Ends, Sized, Idle, recv_message-accepts,
}

Ends-cons : (b : List ℕ) (bs : List (List ℕ)) → is_last b ≡ false → Ends bs → Ends (b ∷ bs)
Ends-cons b [] l e = absurd e
Ends-cons b (c ∷ bs) l e = (l, e)

-- The last block of the loop is marked, and no other.
blocks-Ends :
    (fuel : ℕ) (o : Outgoing) (msg_size : ℕ) (ptr : List ℕ) (num : ℕ)
    → msg_size < fuel
    → num * 244 + msg_size < 2 ^ 15 * 244
    → Ends (blocks fuel o msg_size ptr num)
unfolding blocks
blocks-Ends zero o msg_size ptr num h small = absurd (omega arith)
blocks-Ends (suc fuel) o msg_size ptr num h small =
    let marked = is_last-next_block o msg_size ptr num (omega arith) in
    elim (Bool-cases (next_size msg_size == 0)) [
      | inl p ↦ rw p (marked ∙ p)
      | inr p ↦ rw p (
          Ends-cons (next_block o msg_size ptr num)
            (blocks fuel o (next_size msg_size) (drop (min 244 msg_size) ptr) (num + 1))
            (marked ∙ p)
            (blocks-Ends fuel o (next_size msg_size) (drop (min 244 msg_size) ptr) (num + 1)
              (smaller p) (numbers p)))
    ]
  where
    smaller : (next_size msg_size == 0) ≡ false → next_size msg_size < fuel
    smaller p = unfold next_size in ground arith

    numbers :
        (next_size msg_size == 0) ≡ false → (num + 1) * 244 + next_size msg_size < 2 ^ 15 * 244
    numbers p = unfold next_size in ground arith

accepts_all :
    (bs : List (List ℕ)) (out ts : List ℕ) (rest : List Event)
    → All Sized bs
    → Ends bs
    → Idle ts
    → recv_message false (clear (arrivals bs rest) out ts)
      ≡ (value (assemble initial bs), clear rest (acks bs out) ts)
accepts_all [] out ts rest s e idle = absurd e
accepts_all (b ∷ bs) out ts rest s e idle = recv_message-accepts b bs out ts rest s e idle

absorb-header :
    (a : Assembly) (b : List ℕ)
    → a.first ≡ false
    → ((absorb a b).header ≡ a.header) × ((absorb a b).first ≡ false)
unfolding absorb
absorb-header a b h = ground arith

assemble-header :
    (bs : List (List ℕ)) (a : Assembly) → a.first ≡ false → (assemble a bs).header ≡ a.header
unfolding assemble
assemble-header [] a h = refl
assemble-header (b ∷ bs) a h = elim (Bool-cases (is_last b)) [
  | inl p ↦ rw p (absorb-header a b h).0
  | inr p ↦ rw p (assemble-header bs (absorb a b) (absorb-header a b h).1 ∙ (absorb-header a b h).0)
]

first-header :
    (o : Outgoing) (n : ℕ) (ptr : List ℕ) (bs : List (List ℕ))
    → (assemble initial (next_block o n ptr 1 ∷ bs)).header ≡ block_header o (next_size n == 0) 1
unfolding assemble absorb
first-header o n ptr bs = elim (Bool-cases (is_last (next_block o n ptr 1))) [
  | inl p ↦ rw p (take-next_block o n ptr 1)
  | inr p ↦
      rw p (
        assemble-header bs (absorb initial (next_block o n ptr 1)) refl ∙ take-next_block o n ptr 1)
]

blocks-header :
    (fuel : ℕ) (o : Outgoing) (n : ℕ) (ptr : List ℕ)
    → 0 < fuel
    → (assemble initial (blocks fuel o n ptr 1)).header ≡ block_header o (next_size n == 0) 1
unfolding blocks
blocks-header zero o n ptr h = absurd (omega arith)
blocks-header (suc fuel) o n ptr h =
    let more = blocks fuel o (next_size n) (drop (min 244 n) ptr) 2 in
    first-header o n ptr (if next_size n == 0 then [] else more)

-- A message of fewer than 244 * (2 ^ 15 - 1) bytes, cut into blocks by a loop that is entered with
-- its size.
recv_message-blocks :
    (o : Outgoing) (body : List ℕ) (out ts : List ℕ) (rest : List Event)
    → length body < 244 * 32767
    → Idle ts
    → let bs = blocks (length body + 1) o (length body) body 1 in
      let a = assemble initial bs in
      (recv_message false (clear (arrivals bs rest) out ts)
        ≡ (value a, clear rest (acks bs out) ts))
      × (a.body ≡ body)
      × (a.header ≡ block_header o (next_size (length body) == 0) 1)
recv_message-blocks o body out ts rest small idle =
    let size : ℕ = length body in
    (
      accepts_all (blocks (size + 1) o size body 1) out ts rest
          (blocks_sizes (size + 1) o size body 1)
          (blocks-Ends (size + 1) o size body 1 (omega arith) (omega arith)) idle,
      assemble-blocks_body o body small,
      blocks-header (size + 1) o size body (omega arith),
    )

-- The two ends of a message whose loop starts from `msg_size = 0`: whatever body secs_encode() has
-- built, send_secsII() sends, to a receiver that answers EOT and ACK, with a retry left and the
-- timers that the two ends start not running yet, one block, marked as the last
-- and the first, and returns; recv_secs() takes just these bytes for a whole message, answers them
-- with EOT and ACK, and delivers the header with an empty body.
pub recv_message-sent :
    (serve : M (Unit {0})) (retries fuel retry : ℕ) (o : Outgoing) (body out ts : List ℕ)
    (rest : List Event) (out' ts' : List ℕ) (rest' : List Event)
    → 0 < retry
    → 0 < fuel
    → mem 2 ts ≡ false
    → Idle ts'
    → let block = block_header o true 1 in
      let a = assemble initial (block ∷ []) in
      (send_secs_message
          (λ b. attempts serve o.rbit b retries fuel retry)
          o
          body
          (clear (got eot ∷ got ack ∷ rest) out ts)
        ≡ (value tt, clear rest (out ++ enq ∷ transmission block) ts))
      × (recv_message false (clear (map got (enq ∷ transmission block) ++ rest') out' ts')
          ≡ (value a, clear rest' ((out' ++ eot ∷ []) ++ ack ∷ []) ts'))
      × (a.body ≡ [])
      × (a.header ≡ block)
unfolding send_secs_message send_blocks blocks next_block next_size block_header make_header
recv_message-sent serve retries fuel retry o body out ts rest out' ts' rest' r f two idle =
    let received : let bs = blocks 1 o 0 [] 1 in
        let a = assemble initial bs in
        (recv_message false (clear (arrivals bs rest') out' ts')
          ≡ (value a, clear rest' (acks bs out') ts'))
        × (a.body ≡ [])
        × (a.header ≡ block_header o true 1) =
      recv_message-blocks o [] out' ts' rest' (omega arith) idle in
    let sent =
      attempts-success serve o.rbit (block_header o true 1) retries [] fuel retry out ts rest tt r f
        two in
    (rw sent refl, received.0, received.1, received.2)
