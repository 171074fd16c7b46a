-- ===== src/Hsms/Frame/Pieces.antt =====
-- Bytes that arrive in pieces of any size, and the reads of recv_hsmsI() on them.
use sc_open.Prelude.{
  ℕ, zero, suc, ◌+◌, ◌-◌, ◌%◌, ◌^◌, ◌≤◌, ◌<◌, ◌≡◌, refl, sym, ap, ◌∙◌, Bool, true, false, List, [],
  ◌∷◌, ◌++◌, length, take, drop, take-append-drop, ◌==◌, append_assoc, append-nil, arith,
}
use sc_open.Line.{
  Event, got, failed, expired, pause, value, M, mem, start_timer, stop_timer, my_readc, my_readx,
  read_events, readx_events, take_run, catch,
}
use sc_open.Line.Laws.{clear, remove-cons_self}
use sc_open.Hsms.{read_length_byte, read_header_byte, read_bytes, read_chunk, read_rest}

-- Bytes, each with a mark that says whether it arrives later than the byte before it.
abbrev pub Spaced : Type 0
Spaced = List (Bool × ℕ)

abbrev pub spaced : Spaced → List Event → List Event
spaced [] rest = rest
spaced ((true, c) ∷ bs) rest = pause ∷ got c ∷ spaced bs rest
spaced ((false, c) ∷ bs) rest = got c ∷ spaced bs rest

abbrev pub plain : Spaced → List ℕ
plain [] = []
plain ((p, c) ∷ bs) = c ∷ plain bs

-- What follows has not arrived together with the bytes before it.
abbrev pub Stops : List Event → Type 0
Stops [] = Unit
Stops (got c ∷ es) = ⊥
Stops (failed ∷ es) = Unit
Stops (expired k ∷ es) = Unit
Stops (pause ∷ es) = Unit

pub length-plain : (bs : Spaced) → length (plain bs) ≡ length bs
length-plain [] = refl
length-plain ((p, c) ∷ bs) = ap suc (length-plain bs)

pub plain-take : (n : ℕ) (bs : Spaced) → plain (take n bs) ≡ take n (plain bs)
plain-take zero bs = refl
plain-take (suc n) [] = refl
plain-take (suc n) ((p, c) ∷ bs) = ap (◌∷◌ c) (plain-take n bs)

pub plain-drop : (n : ℕ) (bs : Spaced) → plain (drop n bs) ≡ drop n (plain bs)
plain-drop zero bs = refl
plain-drop (suc n) [] = refl
plain-drop (suc n) ((p, c) ∷ bs) = plain-drop n bs

spaced-append :
    (xs bs : Spaced) (rest : List Event) → spaced (xs ++ bs) rest ≡ spaced xs (spaced bs rest)
spaced-append [] bs rest = refl
spaced-append ((true, c) ∷ xs) bs rest = ap (λ es. pause ∷ got c ∷ es) (spaced-append xs bs rest)
spaced-append ((false, c) ∷ xs) bs rest = ap (λ es. got c ∷ es) (spaced-append xs bs rest)

pub spaced-split :
    (n : ℕ) (bs : Spaced) (rest : List Event)
    → spaced bs rest ≡ spaced (take n bs) (spaced (drop n bs) rest)
spaced-split n bs rest =
    ap (λ cs. spaced cs rest) (sym (take-append-drop n bs))
    ∙ spaced-append (take n bs) (drop n bs) rest

pub fuel-spaced : (bs : Spaced) (rest : List Event) → length bs ≤ length (spaced bs rest)
fuel-spaced [] rest = omega arith
fuel-spaced ((true, c) ∷ bs) rest = omega (arith, fuel-spaced bs rest)
fuel-spaced ((false, c) ∷ bs) rest = omega (arith, fuel-spaced bs rest)

-- What one read of at most n bytes takes, and what it leaves.
run_split : ℕ → Spaced → List ℕ × Spaced
run_split zero bs = ([], bs)
run_split (suc n) [] = ([], [])
run_split (suc n) ((false, c) ∷ bs) = let r = run_split n bs in (c ∷ r.0, r.1)
run_split (suc n) ((true, c) ∷ bs) = ([], (true, c) ∷ bs)

run_split-plain :
    (n : ℕ) (bs : Spaced)
    → ((run_split n bs).0 ++ plain (run_split n bs).1 ≡ plain bs)
      × (length (run_split n bs).0 + length (run_split n bs).1 ≡ length bs)
unfolding run_split
run_split-plain zero bs = (refl, omega arith)
run_split-plain (suc n) [] = (refl, omega arith)
run_split-plain (suc n) ((false, c) ∷ bs) =
    (ap (◌∷◌ c) (run_split-plain n bs).0, omega (arith, run_split-plain n bs))
run_split-plain (suc n) ((true, c) ∷ bs) = (refl, omega arith)

take_run-Stops : (n : ℕ) (rest : List Event) → Stops rest → take_run n rest ≡ ([], rest)
unfolding take_run
take_run-Stops zero rest s = refl
take_run-Stops (suc n) [] s = refl
take_run-Stops (suc n) (got c ∷ es) s = absurd s
take_run-Stops (suc n) (failed ∷ es) s = refl
take_run-Stops (suc n) (expired k ∷ es) s = refl
take_run-Stops (suc n) (pause ∷ es) s = refl

take_run-spaced :
    (n : ℕ) (bs : Spaced) (rest : List Event)
    → Stops rest
    → take_run n (spaced bs rest) ≡ ((run_split n bs).0, spaced (run_split n bs).1 rest)
unfolding take_run run_split
take_run-spaced zero bs rest s = refl
take_run-spaced (suc n) [] rest s = take_run-Stops (suc n) rest s
take_run-spaced (suc n) ((false, c) ∷ bs) rest s =
    ap (λ r. (c ∷ r.0, r.1)) (take_run-spaced n bs rest s)
take_run-spaced (suc n) ((true, c) ∷ bs) rest s = refl

module _ (out ts : List ℕ) (idle : mem 8 ts ≡ false) where
  length_byte-got :
      (p : Bool) (c : ℕ) (bs : Spaced) (rest : List Event)
      → read_length_byte (clear (spaced ((p, c) ∷ bs) rest) out ts)
        ≡ (value c, clear (spaced bs rest) out ts)
  unfolding read_length_byte start_timer stop_timer my_readc read_events catch
  length_byte-got true c bs rest = ground (arith, remove-cons_self 8 ts idle)
  length_byte-got false c bs rest = ground (arith, remove-cons_self 8 ts idle)

  header_byte-got :
      (p : Bool) (c : ℕ) (bs : Spaced) (rest : List Event)
      → read_header_byte (clear (spaced ((p, c) ∷ bs) rest) out ts)
        ≡ (value c, clear (spaced bs rest) out ts)
  unfolding read_header_byte start_timer stop_timer my_readc read_events catch
  header_byte-got true c bs rest = ground (arith, remove-cons_self 8 ts idle)
  header_byte-got false c bs rest = ground (arith, remove-cons_self 8 ts idle)

  read_bytes-spaced :
      (read : M ℕ)
      → ((p : Bool) (c : ℕ) (bs : Spaced) (rest : List Event)
          → read (clear (spaced ((p, c) ∷ bs) rest) out ts)
            ≡ (value c, clear (spaced bs rest) out ts))
      → (n : ℕ) (bs : Spaced) (rest : List Event) → n ≡ length bs
      → read_bytes read n (clear (spaced bs rest) out ts) ≡ (value (plain bs), clear rest out ts)
  unfolding read_bytes
  read_bytes-spaced read h zero [] rest e = refl
  read_bytes-spaced read h zero (b ∷ bs) rest e = absurd (omega arith)
  read_bytes-spaced read h (suc n) [] rest e = absurd (omega arith)
  read_bytes-spaced read h (suc n) ((p, c) ∷ bs) rest e =
      rw (h p c bs rest, read_bytes-spaced read h n bs rest (omega arith))

  pub read_length-spaced :
      (n : ℕ) (bs : Spaced) (rest : List Event)
      → n ≡ length bs
      → read_bytes read_length_byte n (clear (spaced bs rest) out ts)
        ≡ (value (plain bs), clear rest out ts)
  read_length-spaced = read_bytes-spaced read_length_byte length_byte-got

  pub read_header-spaced :
      (n : ℕ) (bs : Spaced) (rest : List Event)
      → n ≡ length bs
      → read_bytes read_header_byte n (clear (spaced bs rest) out ts)
        ≡ (value (plain bs), clear rest out ts)
  read_header-spaced = read_bytes-spaced read_header_byte header_byte-got

  -- A read takes the first byte that has arrived and the bytes that came with it.
  chunk-spaced :
      (p : Bool) (c : ℕ) (bs : Spaced) (rest : List Event)
      → Stops rest
      → read_chunk (clear (spaced ((p, c) ∷ bs) rest) out ts)
        ≡ (value (c ∷ (run_split 2047 bs).0), clear (spaced (run_split 2047 bs).1 rest) out ts)
  unfolding read_chunk start_timer stop_timer my_readx readx_events take_run catch
  chunk-spaced true c bs rest s =
      ground (arith, remove-cons_self 8 ts idle, take_run-spaced 2047 bs rest s)
  chunk-spaced false c bs rest s =
      ground (arith, remove-cons_self 8 ts idle, take_run-spaced 2047 bs rest s)

  pub read_rest-spaced :
      (fuel : ℕ) (bs : Spaced) (body : List ℕ) (rest : List Event)
      → length bs < fuel
      → length bs < 2 ^ 32
      → Stops rest
      → read_rest fuel (length bs) body (clear (spaced bs rest) out ts)
        ≡ (value (body ++ plain bs), clear rest out ts)
  unfolding read_rest
  read_rest-spaced zero bs body rest h small s = absurd (omega arith)
  read_rest-spaced (suc fuel) [] body rest h small s =
      ap (λ b. (value b, clear rest out ts)) (sym (append-nil body))
  read_rest-spaced (suc fuel) ((p, c) ∷ bs) body rest h small s =
      let r = run_split 2047 bs in
      let left : (suc (length bs) + 2 ^ 32 - length (c ∷ r.0)) % 2 ^ 32 ≡ length r.1 =
        omega (arith, run_split-plain 2047 bs) in
      let more : (suc (length bs) == 0) ≡ false = ground arith in
      rw (more, chunk-spaced p c bs rest s, left)
        (read_rest-spaced fuel r.1 (body ++ c ∷ r.0) rest (omega (arith, run_split-plain 2047 bs))
            (omega (arith, run_split-plain 2047 bs)) s
          ∙ ap (λ b. (value b, clear rest out ts))
              (append_assoc body (c ∷ r.0) (plain r.1)
                ∙ ap (λ d. body ++ c ∷ d) (run_split-plain 2047 bs).0))
