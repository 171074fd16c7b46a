-- ===== src/SecsI/Message/Assemble/Whole.antt =====
-- The message comes back whole from its blocks, and what becomes of repeated blocks.
use sc_open.Prelude.{
  ℕ, zero, suc, ◌+◌, ◌*◌, ◌%◌, ◌^◌, ◌<◌, min, ◌≡◌, ◌≢◌, refl, sym, ap, ◌∙◌, Bool, true, false, List,
  [], ◌∷◌, ◌++◌, length, take, drop, get_or, replicate, ◌==◌, if◌then◌else◌, Bool-cases, inl, inr,
  length-drop, take-append-drop, take-append, drop-append, append_assoc, take_all, arith,
}
use sc_open.SecsI.Message.Header.{make_header}
use sc_open.SecsI.Message.Split.{Outgoing, block_header, next_size, next_block, blocks}
use sc_open.SecsI.Message.Split.Whole.{length-block_header}
use sc_open.SecsI.Message.Assemble.{Assembly, initial, same_bytes, absorb, is_last, assemble}

same_bytes-get :
    (xs ys : List ℕ) (i : ℕ)
    → same_bytes xs ys ≡ true
    → i < length xs
    → get_or xs i 0 ≡ get_or ys i 0
unfolding same_bytes
same_bytes-get [] ys i h lt = absurd (omega arith)
same_bytes-get (x ∷ xs) [] i h lt = cc
same_bytes-get (x ∷ xs) (y ∷ ys) zero h lt = ground arith
same_bytes-get (x ∷ xs) (y ∷ ys) (suc i) h lt = ground (arith, same_bytes-get xs ys i)

pub same_bytes_self : (xs : List ℕ) → same_bytes xs xs ≡ true
unfolding same_bytes
same_bytes_self [] = refl
same_bytes_self (x ∷ xs) = ground (arith, same_bytes_self xs)

module _ (o : Outgoing) (msg_size : ℕ) (ptr : List ℕ) (num : ℕ) where
  pub take-next_block :
      take 10 (next_block o msg_size ptr num) ≡ block_header o (next_size msg_size == 0) num
  unfolding next_block
  take-next_block =
      take-append (block_header o (next_size msg_size == 0) num) (take (min 244 msg_size) ptr) 10
        (sym (length-block_header o (next_size msg_size == 0) num))

  drop-next_block : drop 10 (next_block o msg_size ptr num) ≡ take (min 244 msg_size) ptr
  unfolding next_block
  drop-next_block =
      drop-append (block_header o (next_size msg_size == 0) num) (take (min 244 msg_size) ptr) 10
        (sym (length-block_header o (next_size msg_size == 0) num))

  pub is_last-next_block :
      num < 2 ^ 15 → is_last (next_block o msg_size ptr num) ≡ (next_size msg_size == 0)
  unfolding is_last next_block block_header make_header
  is_last-next_block h = ground arith

header_number :
    (o : Outgoing) (flag : Bool) (num : ℕ) → get_or (block_header o flag num) 5 0 ≡ num % 256
unfolding block_header make_header
header_number o flag num = refl

-- The header that the next block is compared with has another number.
abbrev Fresh : Assembly → ℕ → Type 0
Fresh a num =
    (5 < length a.last_header)
    × (get_or a.last_header 5 0 ≢ (if a.first then (num + 1) % 256 else num % 256))

absorb-next_block :
    (a : Assembly) (o : Outgoing) (msg_size : ℕ) (ptr : List ℕ) (num : ℕ)
    → Fresh a num
    → ((absorb a (next_block o msg_size ptr num)).body ≡ a.body ++ take (min 244 msg_size) ptr)
      × Fresh (absorb a (next_block o msg_size ptr num)) (num + 1)
unfolding absorb
absorb-next_block a o msg_size ptr num f =
    let flag : Bool = next_size msg_size == 0 in
    let header : List ℕ = block_header o flag num in
    rw (take-next_block o msg_size ptr num, drop-next_block o msg_size ptr num)
      (ground (
        arith,
        same_bytes-get a.last_header header 5,
        header_number o flag num,
        length-block_header o flag num,
      ))

split-ptr :
    (msg_size : ℕ) (ptr : List ℕ)
    → msg_size ≡ length ptr
    → next_size msg_size ≡ 0
    → take (min 244 msg_size) ptr ≡ ptr
unfolding next_size
split-ptr msg_size ptr e z = take_all ptr (min 244 msg_size) (omega arith)

assemble-blocks :
    (fuel : ℕ) (a : Assembly) (o : Outgoing) (msg_size : ℕ) (ptr : List ℕ) (num : ℕ)
    → msg_size < fuel
    → msg_size ≡ length ptr
    → num * 244 + msg_size < 2 ^ 15 * 244
    → Fresh a num
    → (assemble a (blocks fuel o msg_size ptr num)).body ≡ a.body ++ ptr
unfolding assemble blocks
assemble-blocks zero a o msg_size ptr num h e small f = absurd (omega arith)
assemble-blocks (suc fuel) a o msg_size ptr num h e small f =
    let next = absorb-next_block a o msg_size ptr num f in
    elim (Bool-cases (next_size msg_size == 0)) [
      | inl p ↦
          rw (is_last-next_block o msg_size ptr num (omega arith), p)
            (next.0 ∙ ap (◌++◌ a.body) (split-ptr msg_size ptr e (ground arith)))
      | inr p ↦
          rw (is_last-next_block o msg_size ptr num (omega arith), p)
            (assemble-blocks fuel (absorb a (next_block o msg_size ptr num)) o (next_size msg_size)
                (drop (min 244 msg_size) ptr) (num + 1) (smaller p) (rest p) (numbers p) next.1
              ∙ ap (λ b. b ++ drop (min 244 msg_size) ptr) next.0
              ∙ append_assoc a.body (take (min 244 msg_size) ptr) (drop (min 244 msg_size) ptr)
              ∙ ap (◌++◌ a.body) (take-append-drop (min 244 msg_size) ptr))
    ]
  where
    smaller : (next_size msg_size == 0) ≡ false → next_size msg_size < fuel
    smaller p = unfold next_size in ground arith

    rest :
        (next_size msg_size == 0) ≡ false
        → next_size msg_size ≡ length (drop (min 244 msg_size) ptr)
    rest p = unfold next_size in ground (arith, length-drop (min 244 msg_size) ptr)

    numbers :
        (next_size msg_size == 0) ≡ false → (num + 1) * 244 + next_size msg_size < 2 ^ 15 * 244
    numbers p = unfold next_size in ground arith

-- A message of fewer than 244 * (2 ^ 15 - 1) bytes comes back whole from the blocks that the loop
-- of send_secsII() makes of it when it is entered with the size of the message.
pub assemble-blocks_body :
    (o : Outgoing) (body : List ℕ)
    → length body < 244 * 32767
    → (assemble initial (blocks (length body + 1) o (length body) body 1)).body ≡ body
assemble-blocks_body o body h =
    assemble-blocks (length body + 1) initial o (length body) body 1 (omega arith) refl
      (omega arith) (omega arith)

-- From the second block on, a block that is sent twice changes the message once.
pub absorb_twice :
    (a : Assembly) (block : List ℕ)
    → a.first ≡ false
    → absorb (absorb a block) block ≡ absorb a block
unfolding absorb
absorb_twice a block h = ground (arith, same_bytes_self (take 10 block))

-- The first block of a message is not recognised when it is sent twice: unless its header is all
-- zeros, its bytes are appended a second time.
pub absorb_first_twice :
    (block : List ℕ)
    → same_bytes (replicate 10 0) (take 10 block) ≡ false
    → (absorb (absorb initial block) block).body ≡ drop 10 block ++ drop 10 block
unfolding absorb
absorb_first_twice block h = rw h
