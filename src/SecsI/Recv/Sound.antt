-- ===== src/SecsI/Recv/Sound.antt =====
-- Only whole blocks are acknowledged: what recv_secsI() has read when it returns 0.
use sc_open.Prelude.{
  ℕ, ◌≤◌, ◌≡◌, sym, ap, ◌∙◌, Bool, List, [], ◌∷◌, ◌++◌, length, replicate, arith, append_assoc,
  subst,
}
use sc_open.Secs.{enq, eot, ack, secs_calc_checksum}
use sc_open.Line.{Line, value, write_or}
use sc_open.Line.Laws.{>>=-eq-value}
use sc_open.SecsI.Recv.Reads.{
  Reads, chars, opening, read_check-Reads, read_block-Reads, read_size-Reads, check_size-eq-value,
  compare_checksum-eq-value, write_or-eq-value, wait_enq-Reads,
}
use sc_open.SecsI.Recv.{
  wait_enq, read_size, check_size, read_block, read_check, compare_checksum, recv_body, recv_secs_i,
}
use sc_open.SecsI.Recv.Accept.{transmission}

-- What recv_body() has read and written when it returns 0.
record Received (size : ℕ) (l l' : Line) (block : List ℕ) : Type 0 where
  bytes :
      chars l.events
      ≡ block ++ ((secs_calc_checksum block).0 ∷ (secs_calc_checksum block).1 ∷ chars l'.events)
  sized : length block ≡ size
  low : 10 ≤ size
  high : size ≤ 254
  acked : l'.sent ≡ l.sent ++ ack ∷ []

body-Reads :
    (size : ℕ) (l m3 m4 m5 m6 m7 l' : Line) (block : List ℕ) (c0 c1 : ℕ)
    → (10 ≤ size) × (size ≤ 254) × (l ≡ m3)
    → Reads block m3 m4 × (length block ≡ size)
    → Reads (c0 ∷ []) m4 m5
    → Reads (c1 ∷ []) m5 m6
    → (c0 ≡ (secs_calc_checksum block).0) × (c1 ≡ (secs_calc_checksum block).1) × (m6 ≡ m7)
    → (l'.sent ≡ m7.sent ++ ack ∷ []) × (l'.events ≡ m7.events)
    → Received size l l' block
body-Reads size l m3 m4 m5 m6 m7 l' block c0 c1 fits body check0 check1 same sent = record {
  bytes =
      ap (λ m. chars m.events) fits.2
      ∙ body.0.0
      ∙ ap (◌++◌ block) (
          check0.0
          ∙ ap (◌∷◌ c0) check1.0
          ∙ cc (same.0, same.1, ap (λ m. chars m.events) same.2, ap chars sent.1));
  sized = body.1;
  low = fits.0;
  high = fits.1;
  acked =
      sent.0
      ∙ ap (λ s. s ++ ack ∷ [])
          (sym (ap (λ m. m.sent) same.2)
            ∙ check1.1
            ∙ check0.1
            ∙ body.0.1
            ∙ sym (ap (λ m. m.sent) fits.2));
}

sound_bytes :
    (flag : Bool) (n : ℕ) (l m0 m1 m2 l' : Line) (block : List ℕ)
    → Reads (opening flag) l m0
    → (m1.sent ≡ m0.sent ++ eot ∷ []) × (m1.events ≡ m0.events)
    → Reads (replicate n enq ++ length block ∷ []) m1 m2
    → {size : ℕ} → Received size m2 l' block
    → chars l.events ≡ opening flag ++ (replicate n enq ++ (transmission block ++ chars l'.events))
sound_bytes flag n l m0 m1 m2 l' block opened eot_sent sized r =
    opened.0
    ∙ ap (◌++◌ (opening flag)) (
        ap chars (sym eot_sent.1)
        ∙ sized.0
        ∙ append_assoc (replicate n enq) (length block ∷ []) (chars m2.events)
        ∙ ap (λ cs. replicate n enq ++ length block ∷ cs)
            (r.bytes ∙ sym (append_assoc block _ (chars l'.events))))

recv_body-Received :
    (size : ℕ) (l l' : Line) (block : List ℕ)
    → recv_body size l ≡ (value block, l')
    → Received size l l' block
unfolding recv_body
recv_body-Received size l l' block h =
    let (u3, m3, e3, r3) = >>=-eq-value (check_size size) _ l l' h in
    let (blk, m4, e4, r4) = >>=-eq-value (read_block size) _ m3 l' r3 in
    let (c0, m5, e5, r5) = >>=-eq-value read_check _ m4 l' r4 in
    let (c1, m6, e6, r6) = >>=-eq-value read_check _ m5 l' r5 in
    let (u7, m7, e7, r7) = >>=-eq-value (compare_checksum blk c0 c1) _ m6 l' r6 in
    let (u8, m8, e8, r8) = >>=-eq-value (write_or 1 ack) _ m7 l' r7 in
    body-Reads size l m3 m4 m5 m6 m7 l' block c0 c1 (check_size-eq-value size l m3 e3)
      (subst (λ b. Reads b m3 m4 × (length b ≡ size)) (ground (arith, r8))
        (read_block-Reads size blk m3 m4 e4))
      (read_check-Reads c0 m4 m5 e5) (read_check-Reads c1 m5 m6 e6)
      (subst (λ b. (c0 ≡ (secs_calc_checksum b).0) × (c1 ≡ (secs_calc_checksum b).1) × (m6 ≡ m7))
        (ground (arith, r8)) (compare_checksum-eq-value blk c0 c1 m6 m7 e7))
      (subst {A = Line} (λ n. (n.sent ≡ m7.sent ++ ack ∷ []) × (n.events ≡ m7.events)) {x = m8}
        {y = l'} (ground (arith, r8)) (write_or-eq-value 1 ack m7 m8 e8))

-- When recv_secsI() returns 0, the bytes that it has read are the opening ENQ (if it was still to
-- come), any number of repeated ENQs, and then the size, the 10 to 254 bytes and the checksum of
-- exactly the block that it delivers; and the bytes that it has written are EOT and ACK.
pub recv_secs_i_sound :
    (flag : Bool) (l l' : Line) (block : List ℕ)
    → recv_secs_i flag l ≡ (value block, l')
    → (n : ℕ) × (chars l.events
        ≡ opening flag ++ (replicate n enq ++ (transmission block ++ chars l'.events)))
      × (10 ≤ length block)
      × (length block ≤ 254)
      × (l'.sent ≡ (l.sent ++ eot ∷ []) ++ ack ∷ [])
unfolding recv_secs_i
recv_secs_i_sound flag l l' block h =
    let (u0, m0, e0, r0) = >>=-eq-value (wait_enq flag) _ l l' h in
    let (u1, m1, e1, r1) = >>=-eq-value (write_or 1 eot) _ m0 l' r0 in
    let (size, m2, e2, r2) = >>=-eq-value read_size _ m1 l' r1 in
    let (n, sized) = read_size-Reads size m1 m2 e2 in
    let got_body = recv_body-Received size m2 l' block r2 in
    (
      n,
      sound_bytes flag n l m0 m1 m2 l' block (wait_enq-Reads flag l m0 e0)
          (write_or-eq-value 1 eot m0 m1 e1)
          (subst (λ s. Reads (replicate n enq ++ s ∷ []) m1 m2) (sym got_body.sized) sized)
          got_body,
      omega (arith, got_body.low, got_body.sized),
      omega (arith, got_body.high, got_body.sized),
      got_body.acked
          ∙ ap (λ s. s ++ ack ∷ [])
              (sized.1
                ∙ (write_or-eq-value 1 eot m0 m1 e1).0
                ∙ ap (λ s. s ++ eot ∷ []) (wait_enq-Reads flag l m0 e0).1),
    )
