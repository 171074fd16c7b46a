-- ===== src/SecsI/Recv/Accept.antt =====
-- A block that arrives whole is acknowledged and delivered.
use mathlib.Core.List.{map-append}
use sc_open.Prelude.{
  ℕ, suc, ◌+◌, ◌≤◌, ◌≡◌, refl, true, false, some, List, [], ◌∷◌, ◌++◌, map, length, arith,
  append_assoc,
}
use sc_open.Secs.{enq, eot, ack, secs_calc_checksum}
use sc_open.Line.{Event, got, value, ◌>>◌, mem, start_timer, stop_timer, my_readc, read_events}
use sc_open.Line.Laws.{clear, remove-cons_self, catch-value, write_or-clear, my_readc-got}
use sc_open.SecsI.Recv.{
  timed_read, wait_enq, size_loop, read_size, check_size, read_block, read_check, compare_checksum,
  recv_body, recv_secs_i, refuse, completion,
}

-- The bytes of one block on the line, after the ENQ.
abbrev pub transmission : List ℕ → List ℕ
transmission block =
    let checksum = secs_calc_checksum block in
    length block ∷ (block ++ checksum.0 ∷ checksum.1 ∷ [])

module _ (out ts : List ℕ) where
  timed_read-got :
      (k c : ℕ) (es : List Event)
      → mem k ts ≡ false
      → timed_read k (clear (got c ∷ es) out ts) ≡ (value (some c), clear es out ts)
  unfolding timed_read start_timer stop_timer my_readc read_events
  timed_read-got k c es h = ground (arith, remove-cons_self k ts h)

  size_loop-got :
      (fuel c : ℕ) (es : List Event)
      → mem 2 ts ≡ false
      → 10 ≤ c
      → size_loop (suc fuel) (clear (got c ∷ es) out ts) ≡ (value c, clear es out ts)
  unfolding size_loop
  size_loop-got fuel c es h big = rw (timed_read-got 2 c es h) (ground arith)

  read_size-got :
      (c : ℕ) (es : List Event)
      → mem 2 ts ≡ false
      → 10 ≤ c
      → read_size (clear (got c ∷ es) out ts) ≡ (value c, clear es out ts)
  unfolding read_size
  read_size-got c es h big = catch-value 2 _ _ _ (clear es out ts) c (
      let e : suc (length es) + 1 ≡ suc (length es + 1) = omega arith in
      rw e (size_loop-got (length es + 1) c es h big))

  read_check-got :
      (c : ℕ) (es : List Event)
      → mem 1 ts ≡ false
      → read_check (clear (got c ∷ es) out ts) ≡ (value c, clear es out ts)
  unfolding read_check
  read_check-got c es h =
      rw
        (catch-value 1 (timed_read 1) (completion >> refuse) _ _ (some c) (timed_read-got 1 c es h))

  read_block-got :
      (block : List ℕ) (es : List Event)
      → mem 1 ts ≡ false
      → read_block (length block) (clear (map got block ++ es) out ts)
        ≡ (value block, clear es out ts)
  unfolding read_block
  read_block-got [] es h = refl
  read_block-got (b ∷ bs) es h = rw (
    catch-value 1 (timed_read 1) refuse _ _ (some b) (timed_read-got 1 b (map got bs ++ es) h),
    read_block-got bs es h,
  )

  compare_checksum-good :
      (block : List ℕ) (es : List Event)
      → let checksum = secs_calc_checksum block in
        compare_checksum block checksum.0 checksum.1 (clear es out ts) ≡ (value tt, clear es out ts)
  unfolding compare_checksum
  compare_checksum-good block es = ground arith

  check_size-good :
      (size : ℕ) (es : List Event)
      → 10 ≤ size
      → size ≤ 254
      → check_size size (clear es out ts) ≡ (value tt, clear es out ts)
  unfolding check_size
  check_size-good size es low high = ground arith

-- What recv_secsI() does with the bytes of a block after its ENQ and EOT.
body-accepts :
    (block out ts : List ℕ) (rest : List Event)
    → 10 ≤ length block
    → length block ≤ 254
    → mem 1 ts ≡ false
    → mem 2 ts ≡ false
    → recv_secs_i true (clear (map got (transmission block) ++ rest) out ts)
      ≡ (value block, clear rest ((out ++ eot ∷ []) ++ ack ∷ []) ts)
unfolding recv_secs_i recv_body wait_enq
body-accepts block out ts rest low high one two =
    let sent : List ℕ = out ++ eot ∷ [] in
    let c0 : ℕ = (secs_calc_checksum block).0 in
    let c1 : ℕ = (secs_calc_checksum block).1 in
    rw (
      write_or-clear 1 eot (map got (transmission block) ++ rest) out ts,
      read_size-got sent ts (length block) (map got (block ++ c0 ∷ c1 ∷ []) ++ rest) two low,
      check_size-good sent ts (length block) (map got (block ++ c0 ∷ c1 ∷ []) ++ rest) low high,
      map-append got block (c0 ∷ c1 ∷ []),
      append_assoc (map got block) (got c0 ∷ got c1 ∷ []) rest,
      read_block-got sent ts block (got c0 ∷ got c1 ∷ rest) one,
      read_check-got sent ts c0 (got c1 ∷ rest) one,
      read_check-got sent ts c1 rest one,
      compare_checksum-good sent ts block rest,
      write_or-clear 1 ack rest sent ts,
    )

-- A block of 10 to 254 bytes that arrives with its size and its checksum behind an ENQ is returned
-- whole and answered with EOT and ACK; nothing after it is read, and no timer is left running that
-- did not run before.
pub recv_secs_i-accepts :
    (block out ts : List ℕ) (rest : List Event)
    → 10 ≤ length block
    → length block ≤ 254
    → mem 1 ts ≡ false
    → mem 2 ts ≡ false
    → recv_secs_i false (clear (map got (enq ∷ transmission block) ++ rest) out ts)
      ≡ (value block, clear rest ((out ++ eot ∷ []) ++ ack ∷ []) ts)
unfolding recv_secs_i wait_enq
recv_secs_i-accepts block out ts rest low high one two =
    rw (my_readc-got enq (map got (transmission block) ++ rest) out ts)
      (body-accepts block out ts rest low high one two)
