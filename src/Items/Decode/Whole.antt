-- ===== src/Items/Decode/Whole.antt =====
-- secs_decode() on the bytes of a message of whole items, from its first to its last byte.
use sc_open.Prelude.{
  ℕ, zero, suc, ◌+◌, ◌%◌, ◌^◌, ◌<◌, ◌≤◌, ◌≡◌, refl, ap, ◌∙◌, sym, List, [], ◌∷◌, ◌++◌, length,
  arith, append-nil, length-append, ◌-◌,
}
use sc_open.Numbers.{Text}
use sc_open.TmpVariables.{Variable}
use sc_open.Items.{store_data, set_size_bytes}
use sc_open.Items.Tree.{Forest, end, list, data_item, count, list_head, encode, IsEncodable}
use sc_open.Items.Decode.{base_name, returned, decode_loop, secs_decode}
use sc_open.Items.Entries.{add_all}
use sc_open.Items.Decode.Spec.{entries, outcome, outcome-ap}
use sc_open.Items.Decode.Walk.{frame}
use sc_open.Items.Decode.Nested.{spend, loop, resume, resume-frame, walk_list, walk_data, walks}

spend_add : (items : Forest) (fuel : ℕ) → spend items fuel ≡ spend items 0 + fuel
unfolding spend
spend_add end fuel = omega arith
spend_add (list items rest) fuel =
    omega (
      arith,
      spend_add items (spend rest fuel),
      spend_add items (spend rest 0),
      spend_add rest fuel,
    )
spend_add (data_item f bytes rest) fuel = omega (arith, spend_add rest fuel)

-- Each round takes a byte at least.
spend-encode : (items : Forest) → spend items 0 ≤ length (encode items)
unfolding spend encode list_head store_data
spend-encode end = omega arith
spend-encode (list items rest) = omega (
  arith,
  spend-encode items,
  spend-encode rest,
  spend_add items (spend rest 0),
  length-append (set_size_bytes (count items)) (encode items ++ encode rest),
  length-append (encode items) (encode rest),
)
spend-encode (data_item f bytes rest) =
    omega (
      arith,
      spend-encode rest,
      length-append (set_size_bytes (length bytes) ++ bytes) (encode rest),
    )

module _ (print_float : List ℕ → Text) (prefix : Text) where
  -- The frame of the message is never closed.
  last_frame :
      (fuel k i : ℕ) (table : List Variable)
      → 0 < k
      → k < 2 ^ 32
      → resume print_float prefix (suc fuel) [] (frame k i ∷ []) table ≡ returned 0 table
  unfolding decode_loop
  last_frame fuel zero i table some_left small = absurd (omega arith)
  last_frame fuel (suc k) i table some_left small =
      resume-frame print_float prefix (suc fuel) k i [] [] table small

  -- A message from its first item on, with e[0] at 0, which wraps.
  first_walk :
      (items : Forest) (fuel num : ℕ) (table : List Variable)
      → count items ≡ suc num
      → count items < 2 ^ 32
      → ((k : ℕ)
          → num + k < 2 ^ 32
          → loop print_float prefix
              (spend items (suc fuel))
              (encode items ++ [])
              (frame (suc (num + k)) 0 ∷ [])
              table
            ≡ outcome
                (entries print_float 1 prefix 0 items)
                table
                (resume print_float prefix (suc fuel) [] (frame k (0 + suc num) ∷ [])))
      → loop print_float prefix (spend items (suc fuel)) (encode items) (frame 0 0 ∷ []) table
        ≡ outcome (entries print_float 1 prefix 0 items) table (returned 0)
  first_walk items fuel num table counts small walk =
      let k : ℕ = 2 ^ 32 - suc num in
      let wrap : 0 % 2 ^ 32 ≡ suc (num + (2 ^ 32 - suc num)) % 2 ^ 32 = omega arith in
      ap (λ b. loop print_float prefix (spend items (suc fuel)) b (frame 0 0 ∷ []) table)
        (sym (append-nil (encode items)))
      ∙ ap
          (λ n.
            loop print_float prefix (spend items (suc fuel)) (encode items ++ [])
              (record { left = n; index = 0 } ∷ []) table)
          wrap
      ∙ walk k (omega arith)
      ∙ outcome-ap _ table (λ t. last_frame fuel k (0 + suc num) t (omega arith) (omega arith))

  message_walk :
      (items : Forest) (fuel : ℕ) (table : List Variable)
      → IsEncodable items
      → count items < 2 ^ 32
      → loop print_float prefix (spend items (suc fuel)) (encode items) (frame 0 0 ∷ []) table
        ≡ outcome (entries print_float 1 prefix 0 items) table (returned 0)
  unfolding decode_loop spend encode entries base_name add_all
  message_walk end fuel table ok small = refl
  message_walk (list items rest) fuel table ok small =
      first_walk (list items rest) fuel (count rest) table refl small λ k room.
        walk_list print_float prefix items rest (suc fuel) k 0 [] [] table
          (walks print_float prefix items ok.1) (walks print_float prefix rest ok.2) room ok.0
  message_walk (data_item f bytes rest) fuel table ok small =
      first_walk (data_item f bytes rest) fuel (count rest) table refl small λ k room.
        walk_data print_float prefix f bytes rest (suc fuel) k 0 [] [] table
          (walks print_float prefix rest ok.2) room ok.0 ok.1

  -- Over the bytes of items, lists within lists included, each of whole elements and of fewer than
  -- 2 ^ 24 bytes or items, fewer than 2 ^ 32 at the top, secs_decode() adds the variables that the tree of the items says, one item
  -- behind the other and each under its place in its lists, and returns 0; it is outside of an array
  -- exactly where a name or a number of the tree does not fit.
  pub secs_decode-encode :
      (items : Forest) (table : List Variable)
      → IsEncodable items
      → count items < 2 ^ 32
      → secs_decode print_float prefix (encode items) table
        ≡ outcome (entries print_float 1 prefix 0 items) table (returned 0)
  unfolding secs_decode
  secs_decode-encode items table ok small =
      let spare : ℕ = length (encode items) - spend items 0 in
      let fuel : suc (length (encode items))
          ≡ spend items (suc (length (encode items) - spend items 0)) =
        omega (
          arith,
          spend_add items (suc (length (encode items) - spend items 0)),
          spend-encode items,
        ) in
      ap (λ n. loop print_float prefix n (encode items) (frame 0 0 ∷ []) table) fuel
      ∙ message_walk items spare table ok small
