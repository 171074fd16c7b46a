-- ===== src/SecsI/Message/Assemble/Transfer.antt =====
-- A message that arrives block by block on the line.
use sc_open.Prelude.{
  ℕ, zero, suc, ◌+◌, ◌≤◌, ◌<◌, ◌≡◌, ◌⊎◌, inl, inr, refl, ap, true, false, List, [], ◌∷◌, ◌++◌, map,
  length, length-append, All, arith,
}
use sc_open.Secs.{enq, eot, ack}
use sc_open.Line.{Event, got, value, M, return, ◌>>◌, mem, remove, start_timer, stop_timer}
use sc_open.Line.Laws.{clear, remove-absent, catch-value, start_timer-absent}
use sc_open.SecsI.Recv.{recv_secs_i}
use sc_open.SecsI.Recv.Accept.{transmission, recv_secs_i-accepts}
use sc_open.SecsI.Message.Assemble.{
  Assembly, initial, absorb, is_last, assemble, next_block_in_time, recv_loop, recv_message,
}

-- Every block behind an ENQ.
abbrev pub arrivals : List (List ℕ) → List Event → List Event
arrivals [] rest = rest
arrivals (b ∷ bs) rest = map got (enq ∷ transmission b) ++ arrivals bs rest

-- What the receiver answers.
abbrev pub acks : List (List ℕ) → List ℕ → List ℕ
acks [] out = out
acks (b ∷ bs) out = acks bs ((out ++ eot ∷ []) ++ ack ∷ [])

-- The blocks of one message: none but the last is marked as the last.
abbrev pub Ends : List (List ℕ) → Type 0
Ends [] = ⊥
Ends (b ∷ []) = is_last b ≡ true
Ends (b ∷ c ∷ bs) = (is_last b ≡ false) × Ends (c ∷ bs)

abbrev pub Sized : List ℕ → Type 0
Sized b = (10 ≤ length b) × (length b ≤ 254)

-- No timer of the receiving functions runs.
pub record Idle (ts : List ℕ) : Type 0 where
  pub t1 : mem 1 ts ≡ false
  pub t2 : mem 2 ts ≡ false
  pub t3 : mem 3 ts ≡ false
  pub t4 : mem 4 ts ≡ false

module _ (ts : List ℕ) (idle : Idle ts) where
  in_time :
      (b out : List ℕ) (rest : List Event)
      → Sized b
      → next_block_in_time (clear (arrivals (b ∷ []) rest) out ts)
        ≡ (value b, clear rest ((out ++ eot ∷ []) ++ ack ∷ []) (4 ∷ ts))
  unfolding next_block_in_time
  in_time b out rest s = catch-value 4 (start_timer 4 >> recv_secs_i false) (return 1) _ _ b (
      rw (
        start_timer-absent 4 (arrivals (b ∷ []) rest) out ts idle.t4,
        recv_secs_i-accepts b out (4 ∷ ts) rest s.0 s.1 idle.t1 idle.t2,
      ))

  stops : (u : List ℕ) → (u ≡ ts) ⊎ (u ≡ 4 ∷ ts) → remove 4 (remove 3 u) ≡ ts
  stops u h = ground (arith, remove-absent 3 ts idle.t3, remove-absent 4 ts idle.t4)

  recv_loop-accepts :
      (bs : List (List ℕ)) (b : List ℕ) (fuel : ℕ) (receive : M (List ℕ)) (u : List ℕ)
      (a : Assembly) (out : List ℕ) (rest : List Event)
      → length bs < fuel
      → (u ≡ ts) ⊎ (u ≡ 4 ∷ ts)
      → ((more : List Event)
          → receive (clear (arrivals (b ∷ []) more) out ts)
            ≡ (value b, clear more ((out ++ eot ∷ []) ++ ack ∷ []) u))
      → All Sized bs
      → Ends (b ∷ bs)
      → recv_loop fuel receive a (clear (arrivals (b ∷ bs) rest) out ts)
        ≡ (value (assemble a (b ∷ bs)), clear rest (acks (b ∷ bs) out) ts)
  unfolding recv_loop assemble stop_timer
  recv_loop-accepts bs b zero receive u a out rest h tu e s ends = absurd (omega arith)
  recv_loop-accepts [] b (suc fuel) receive u a out rest h tu e s ends =
      rw (e rest, ends)
        (ap (λ t. (value (absorb a b), clear rest ((out ++ eot ∷ []) ++ ack ∷ []) t)) (stops u tu))
  recv_loop-accepts (c ∷ bs) b (suc fuel) receive u a out rest h tu e s ends =
      rw (e (arrivals (c ∷ bs) rest), ends.0, stops u tu)
        (recv_loop-accepts bs c fuel next_block_in_time (4 ∷ ts) (absorb a b)
          ((out ++ eot ∷ []) ++ ack ∷ []) rest (omega arith) (inr refl)
          (λ more. in_time c ((out ++ eot ∷ []) ++ ack ∷ []) more s.0) s.1 ends.1)

length-arrivals : (bs : List (List ℕ)) (rest : List Event) → length bs ≤ length (arrivals bs rest)
length-arrivals [] rest = omega arith
length-arrivals (b ∷ bs) rest = omega (
  arith,
  length-arrivals bs rest,
  length-append (map got (enq ∷ transmission b)) (arrivals bs rest),
)

-- The blocks of a message that arrive whole, one behind the other, are received up to the block
-- that is marked as the last; each is answered with EOT and ACK, what follows is left on the line,
-- and no timer runs afterwards that did not run before.
pub recv_message-accepts :
    (b : List ℕ) (bs : List (List ℕ)) (out ts : List ℕ) (rest : List Event)
    → All Sized (b ∷ bs)
    → Ends (b ∷ bs)
    → Idle ts
    → recv_message false (clear (arrivals (b ∷ bs) rest) out ts)
      ≡ (value (assemble initial (b ∷ bs)), clear rest (acks (b ∷ bs) out) ts)
unfolding recv_message stop_timer
recv_message-accepts b bs out ts rest s ends idle =
    rw
      (recv_loop-accepts ts idle bs b (length (arrivals (b ∷ bs) rest) + 1) (recv_secs_i false) ts
        initial out rest (omega (arith, length-arrivals (b ∷ bs) rest)) (inl refl)
        (λ more. recv_secs_i-accepts b out ts more s.0.0 s.0.1 idle.t1 idle.t2) s.1 ends)
      (ap (λ t. (value (assemble initial (b ∷ bs)), clear rest (acks (b ∷ bs) out) t))
        (stops ts idle ts (inl refl)))
