-- ===== src/SecsI/Send/Handshake.antt =====
-- What send_secsI() writes, and how it fits recv_secsI().
use sc_open.Prelude.{
  ℕ, zero, suc, ◌+◌, ◌≤◌, ◌<◌, ◌≡◌, ◌≢◌, ◌⊎◌, refl, ap, Bool, true, false, some, List, [], ◌∷◌,
  ◌++◌, map, length, All, ◌==◌, if◌then◌else◌, arith, append_assoc, append-nil,
}
use sc_open.Secs.{enq, eot, ack, secs_calc_checksum}
use sc_open.Line.{
  Event, got, Line, value, ret, return, mem, start_timer, stop_timer, my_readc, read_events, catch,
}
use sc_open.Line.Laws.{
  clear, remove-cons_self, catch-value, catch-ret, start_timer-absent, write_or-clear, my_readc-got,
}
use sc_open.SecsI.Recv.{recv_secs_i}
use sc_open.SecsI.Recv.Accept.{transmission, recv_secs_i-accepts}
use sc_open.SecsI.Send.{judge_eot, wait_eot, request, write_all, judge_ack, read_ack, send_secs_i}

-- A byte that does not end the wait for EOT: neither EOT nor, for the slave, ENQ.
abbrev pub Noise : Bool → ℕ → Type 0
Noise rbit c = (c ≢ eot) × ((c ≢ enq) ⊎ (rbit ≡ true))

judge_eot-Noise :
    (rbit : Bool) (c : ℕ) (l : Line) → Noise rbit c → judge_eot rbit (some c) l ≡ (value false, l)
unfolding judge_eot
judge_eot-Noise rbit c l h = ground arith

module _ (rbit : Bool) (out ts : List ℕ) where
  wait_eot-clear :
      (noise : List ℕ) (rest : List Event) (fuel : ℕ)
      → All (Noise rbit) noise
      → length noise < fuel
      → mem 2 ts ≡ false
      → wait_eot fuel rbit (clear (map got noise ++ got eot ∷ rest) out (2 ∷ ts))
        ≡ (value tt, clear rest out ts)
  unfolding wait_eot
  wait_eot-clear noise rest zero a h two = absurd (omega arith)
  wait_eot-clear [] rest (suc fuel) a h two =
      rw (my_readc-got eot rest out (2 ∷ ts))
        (unfold judge_eot stop_timer in ground (arith, remove-cons_self 2 ts two))
  wait_eot-clear (c ∷ cs) rest (suc fuel) a h two =
      let l : Line = clear (map got cs ++ got eot ∷ rest) out (2 ∷ ts) in
      rw (my_readc-got c (map got cs ++ got eot ∷ rest) out (2 ∷ ts), judge_eot-Noise rbit c l a.0)
        (wait_eot-clear cs rest fuel a.1 (omega arith) two)

  length-noise :
      (noise : List ℕ) (t : ℕ) (rest : List Event)
      → length noise < length (map got noise ++ got t ∷ rest) + 1
  length-noise [] t rest = omega arith
  length-noise (c ∷ cs) t rest = omega (arith, length-noise cs t rest)

  request-clear :
      (noise : List ℕ) (rest : List Event)
      → All (Noise rbit) noise
      → mem 2 ts ≡ false
      → request rbit (clear (map got noise ++ got eot ∷ rest) out ts)
        ≡ (value tt, clear rest out ts)
  unfolding request
  request-clear noise rest a two =
      let es : List Event = map got noise ++ got eot ∷ rest in
      catch-value 2 _ (return 1) (clear es out ts) (clear rest out ts) tt (
        rw (
          start_timer-absent 2 es out ts two,
          wait_eot-clear noise rest (length es + 1) a (length-noise noise eot rest) two,
        ))

  write_all-clear :
      (bs ts' : List ℕ) (es : List Event) (sent : List ℕ)
      → write_all bs (clear es sent ts') ≡ (value tt, clear es (sent ++ bs) ts')
  unfolding write_all
  write_all-clear [] ts' es sent = rw (append-nil sent)
  write_all-clear (b ∷ bs) ts' es sent = rw (
    write_or-clear 3 b es sent ts',
    write_all-clear bs ts' es (sent ++ b ∷ []),
    append_assoc sent (b ∷ []) bs,
  )

  read_ack-answer :
      (c : ℕ) (rest : List Event)
      → mem 2 ts ≡ false
      → read_ack (clear (got c ∷ rest) out ts)
        ≡ ((if c == ack then value tt else ret 1), clear rest out ts)
  unfolding read_ack judge_ack start_timer stop_timer my_readc read_events catch
  read_ack-answer c rest two = ground (arith, remove-cons_self 2 ts two)

  wait_eot-contention :
      (noise : List ℕ) (rest : List Event) (fuel : ℕ)
      → All (Noise false) noise
      → length noise < fuel
      → mem 2 ts ≡ false
      → wait_eot fuel false (clear (map got noise ++ got enq ∷ rest) out (2 ∷ ts))
        ≡ (ret 2, clear rest out ts)
  unfolding wait_eot
  wait_eot-contention noise rest zero a h two = absurd (omega arith)
  wait_eot-contention [] rest (suc fuel) a h two =
      rw (my_readc-got enq rest out (2 ∷ ts))
        (unfold judge_eot stop_timer in ground (arith, remove-cons_self 2 ts two))
  wait_eot-contention (c ∷ cs) rest (suc fuel) a h two =
      let l : Line = clear (map got cs ++ got enq ∷ rest) out (2 ∷ ts) in
      rw (my_readc-got c (map got cs ++ got enq ∷ rest) out (2 ∷ ts), judge_eot-Noise false c l a.0)
        (wait_eot-contention cs rest fuel a.1 (omega arith) two)

  request-contention :
      (noise : List ℕ) (rest : List Event)
      → All (Noise false) noise
      → mem 2 ts ≡ false
      → request false (clear (map got noise ++ got enq ∷ rest) out ts) ≡ (ret 2, clear rest out ts)
  unfolding request
  request-contention noise rest a two =
      let es : List Event = map got noise ++ got enq ∷ rest in
      catch-ret 2 2 _ (return 1) (clear es out ts) (clear rest out ts) (
        rw (
          start_timer-absent 2 es out ts two,
          wait_eot-contention noise rest (length es + 1) a (length-noise noise enq rest) two,
        ))

-- Whatever noise comes before it, EOT lets the sender write the whole block, its size in front and
-- its checksum behind; ACK makes that a success and any other byte a request to send it again.
pub send_secs_i-answer :
    (rbit : Bool) (block noise out ts : List ℕ) (c : ℕ) (rest : List Event)
    → All (Noise rbit) noise
    → mem 2 ts ≡ false
    → send_secs_i rbit block (clear (map got noise ++ got eot ∷ got c ∷ rest) out ts)
      ≡ ((if c == ack then value tt else ret 1), clear rest (out ++ enq ∷ transmission block) ts)
unfolding send_secs_i
send_secs_i-answer rbit block noise out ts c rest a two =
    let c0 : ℕ = (secs_calc_checksum block).0 in
    let c1 : ℕ = (secs_calc_checksum block).1 in
    let es : List Event = got c ∷ rest in
    let begun : List ℕ = out ++ enq ∷ [] in
    let sized : List ℕ = begun ++ length block ∷ [] in
    let whole : List ℕ = ((sized ++ block) ++ c0 ∷ []) ++ c1 ∷ [] in
    rw
      (
        write_or-clear 3 enq (map got noise ++ got eot ∷ es) out ts,
        request-clear rbit begun ts noise es a two,
        write_or-clear 3 (length block) es begun ts,
        write_all-clear rbit out ts block ts es sized,
        write_or-clear 3 c0 es (sized ++ block) ts,
        write_or-clear 3 c1 es ((sized ++ block) ++ c0 ∷ []) ts,
        read_ack-answer rbit whole ts c rest two,
      )
      (ap (λ sent. ((if c == ack then value tt else ret 1), clear rest sent ts))
        (simp append_assoc))

-- The slave that meets an ENQ while it waits for EOT gives way: it has written its ENQ alone.
pub send_secs_i-contention :
    (block noise out ts : List ℕ) (rest : List Event)
    → All (Noise false) noise
    → mem 2 ts ≡ false
    → send_secs_i false block (clear (map got noise ++ got enq ∷ rest) out ts)
      ≡ (ret 2, clear rest (out ++ enq ∷ []) ts)
unfolding send_secs_i
send_secs_i-contention block noise out ts rest a two = rw (
  write_or-clear 3 enq (map got noise ++ got enq ∷ rest) out ts,
  request-contention false (out ++ enq ∷ []) ts noise rest a two,
)

-- The two ends fit: fed with what recv_secsI() answers, send_secsI() succeeds, and fed with what
-- send_secsI() writes, recv_secsI() delivers the block and answers just that.
pub handshake :
    (rbit : Bool) (block ts ts' : List ℕ)
    → 10 ≤ length block
    → length block ≤ 254
    → mem 2 ts ≡ false
    → mem 1 ts' ≡ false
    → mem 2 ts' ≡ false
    → let sender = send_secs_i rbit block (clear (map got (eot ∷ ack ∷ [])) [] ts) in
      let receiver = recv_secs_i false (clear (map got sender.1.sent) [] ts') in
      (sender.0 ≡ value tt) × (receiver.0 ≡ value block) × (receiver.1.sent ≡ eot ∷ ack ∷ [])
handshake rbit block ts ts' low high two one' two' =
    rw
      (
        send_secs_i-answer rbit block [] [] ts ack [] tt two,
        ← append-nil (map got (enq ∷ transmission block)),
        recv_secs_i-accepts block [] ts' [] low high one' two',
      )
      (refl, refl, refl)
