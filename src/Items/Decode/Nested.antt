-- ===== src/Items/Decode/Nested.antt =====
-- secs_decode() on the bytes of whole items, however deep their lists are nested.
use sc_open.Prelude.{
  ℕ, suc, ◌+◌, ◌%◌, ◌^◌, ◌<◌, ◌≡◌, refl, ap, ◌∙◌, sym, false, none, some, List, ◌∷◌, ◌++◌, length,
  ◌==◌, if◌then◌else◌, arith, append_assoc,
}
use sc_open.Numbers.{Text}
use sc_open.TmpVariables.{Variable}
use sc_open.Items.{store_data}
use sc_open.Items.Format.{Format, code, element_size}
use sc_open.Items.Tree.{Forest, end, list, data_item, count, list_head, encode, IsEncodable}
use sc_open.Items.Decode.{
  Frame, base_name, close, counted, next, Result, out_of_bounds, pushed, closed, decode_loop,
}
use sc_open.Items.Entries.{add_all}
use sc_open.Items.Decode.Spec.{entries, outcome, outcome-joined, outcome-ap}
use sc_open.Items.Decode.Walk.{frame, counted-frame, decode_item-data, decode_item-list}

-- The fuel of the rounds on the items, on top of that which is left behind them.
unfoldable pub spend : Forest → ℕ → ℕ
spend end fuel = fuel
spend (list items rest) fuel = suc (spend items (spend rest fuel))
spend (data_item f bytes rest) fuel = suc (spend rest fuel)

module _ (print_float : List ℕ → Text) (prefix : Text) where
  abbrev pub loop : (fuel : ℕ) → List ℕ → List Frame → List Variable → Result
  loop fuel rest frames table =
      decode_loop print_float prefix fuel (record { rest = rest; frames = frames; table = table })

  abbrev pub resume : (fuel : ℕ) → List ℕ → List Frame → List Variable → Result
  resume fuel rest frames table =
      closed print_float prefix (next (record { rest = rest; frames = frames; table = table }))
        (decode_loop print_float prefix fuel)

  pub resume-frame :
      (fuel n i : ℕ) (rest : List ℕ) (fs : List Frame) (table : List Variable)
      → suc n < 2 ^ 32
      → resume fuel rest (frame (suc n) i ∷ fs) table ≡ loop fuel rest (frame (suc n) i ∷ fs) table
  unfolding close
  resume-frame fuel n i rest fs table small =
      let busy : ((suc n % 2 ^ 32) == 0) ≡ false = ground arith in
      ap
        (λ b. elim (if b then close fs else some (frame (suc n) i ∷ fs)) [
          | none ↦ out_of_bounds
          | some frames ↦ loop fuel rest frames table
        ])
        busy

  -- The sequence is taken off the bytes, the frame of its list counts its items, and what follows
  -- goes on with the variables.
  abbrev Walks : Forest → Type 0
  Walks items =
      (fuel k i : ℕ) (more : List ℕ) (fs : List Frame) (table : List Variable)
      → count items + k < 2 ^ 32
      → resume (spend items fuel) (encode items ++ more) (frame (count items + k) i ∷ fs) table
        ≡ outcome (entries print_float (suc (length fs)) (base_name prefix fs) i items) table
            (resume fuel more (frame k (i + count items) ∷ fs))

  pushed-frame :
      (n : ℕ) (top : Frame) (fs : List Frame)
      → suc n < 2 ^ 24
      → pushed print_float prefix (suc n) top fs ≡ frame (suc n + 0) 0 ∷ counted top ∷ fs
  pushed-frame n top fs small =
      let same : suc n ≡ (suc n + 0) % 2 ^ 32 = omega arith in
      ap (λ left. record { left = left; index = 0 } ∷ counted top ∷ fs) same

  -- The items inside a list, between its head and what stands behind the list.
  inside_walk :
      (items : Forest) (fuel : ℕ) (more : List ℕ) (top : Frame) (fs : List Frame)
      (table : List Variable)
      → Walks items
      → count items < 2 ^ 24
      → resume
          (spend items fuel)
          (encode items ++ more)
          (pushed print_float prefix (count items) top fs)
          table
        ≡ outcome
            (entries print_float
              (suc (suc (length fs)))
              (base_name prefix (counted top ∷ fs))
              0
              items)
            table
            (resume fuel more (counted top ∷ fs))
  unfolding close spend encode entries add_all
  inside_walk end fuel more top fs table walks small = refl
  inside_walk (list items rest) fuel more top fs table walks small =
      rw (pushed-frame (count rest) top fs small)
        (walks fuel 0 0 more (counted top ∷ fs) table (omega arith))
  inside_walk (data_item f bytes rest) fuel more top fs table walks small =
      rw (pushed-frame (count rest) top fs small)
        (walks fuel 0 0 more (counted top ∷ fs) table (omega arith))

  -- What follows the items behind an item.
  behind_walk :
      (rest : Forest) (fuel k i : ℕ) (more : List ℕ) (fs : List Frame) (table : List Variable)
      → Walks rest
      → count rest + k < 2 ^ 32
      → resume (spend rest fuel) (encode rest ++ more) (frame (count rest + k) (i + 1) ∷ fs) table
        ≡ outcome
            (entries print_float (suc (length fs)) (base_name prefix fs) (i + 1) rest)
            table
            (resume fuel more (frame k (i + suc (count rest)) ∷ fs))
  behind_walk rest fuel k i more fs table walks small =
      let index : i + 1 + count rest ≡ i + suc (count rest) = omega arith in
      walks fuel k (i + 1) more fs table small
      ∙ ap
          (λ n.
            outcome (entries print_float (suc (length fs)) (base_name prefix fs) (i + 1) rest) table
              (resume fuel more (frame k n ∷ fs)))
          index

  pub walk_data :
      (f : Format) (bytes : List ℕ) (rest : Forest) (fuel k i : ℕ) (more : List ℕ) (fs : List Frame)
      (table : List Variable)
      → Walks rest
      → count rest + k < 2 ^ 32
      → length bytes < 2 ^ 24
      → length bytes % element_size f ≡ 0
      → loop
          (spend (data_item f bytes rest) fuel)
          (encode (data_item f bytes rest) ++ more)
          (frame (suc (count rest + k)) i ∷ fs)
          table
        ≡ outcome
            (entries print_float (suc (length fs)) (base_name prefix fs) i (data_item f bytes rest))
            table
            (resume fuel more (frame k (i + suc (count rest)) ∷ fs))
  unfolding decode_loop spend encode entries store_data
  walk_data f bytes rest fuel k i more fs table walks room small whole =
      ap (λ b. loop (suc (spend rest fuel)) b (frame (suc (count rest + k)) i ∷ fs) table)
        (append_assoc (store_data (code f) bytes) (encode rest) more)
      ∙ decode_item-data print_float prefix (decode_loop print_float prefix (spend rest fuel)) f
          bytes (encode rest ++ more) (count rest + k) i fs table small whole
      ∙ outcome-ap _ table (λ t. behind_walk rest fuel k i more fs t walks room)
      ∙ sym (outcome-joined _ _ table (resume fuel more (frame k (i + suc (count rest)) ∷ fs)))

  pub walk_list :
      (items rest : Forest) (fuel k i : ℕ) (more : List ℕ) (fs : List Frame) (table : List Variable)
      → Walks items
      → Walks rest
      → count rest + k < 2 ^ 32
      → count items < 2 ^ 24
      → loop
          (spend (list items rest) fuel)
          (encode (list items rest) ++ more)
          (frame (suc (count rest + k)) i ∷ fs)
          table
        ≡ outcome
            (entries print_float (suc (length fs)) (base_name prefix fs) i (list items rest))
            table
            (resume fuel more (frame k (i + suc (count rest)) ∷ fs))
  unfolding decode_loop spend encode entries list_head base_name
  walk_list items rest fuel k i more fs table inside walks room small =
      let top = frame (suc (count rest + k)) (i + 1) in
      let left = spend items (spend rest fuel) in
      let bytes : encode (list items rest) ++ more
          ≡ list_head (count items) ++ (encode items ++ (encode rest ++ more)) =
        append_assoc (list_head (count items)) (encode items ++ encode rest) more
        ∙ ap (◌++◌ (list_head (count items))) (append_assoc (encode items) (encode rest) more) in
      ap (λ b. loop (suc left) b (frame (suc (count rest + k)) i ∷ fs) table) bytes
      ∙ decode_item-list print_float prefix (decode_loop print_float prefix left) (count items)
          (encode items ++ (encode rest ++ more)) (count rest + k) i fs table small
      ∙ outcome-ap _ table (λ t.
        inside_walk items (spend rest fuel) (encode rest ++ more) top fs t inside small
        ∙ outcome-ap _ t (λ u.
          ap (λ c. resume (spend rest fuel) (encode rest ++ more) (c ∷ fs) u)
            (counted-frame (count rest + k) (i + 1))
          ∙ behind_walk rest fuel k i more fs u walks room)
        ∙ sym (outcome-joined _ _ t (resume fuel more (frame k (i + suc (count rest)) ∷ fs))))
      ∙ sym (outcome-joined _ _ table (resume fuel more (frame k (i + suc (count rest)) ∷ fs)))

  -- Any sequence, by the rounds on its items.
  pub walks : (items : Forest) → IsEncodable items → Walks items
  unfolding spend encode entries add_all
  walks end ok fuel k i more fs table small =
      let left : 0 + k ≡ k = omega arith in
      let index : i ≡ i + 0 = omega arith in
      ap (λ n. resume fuel more (frame n i ∷ fs) table) left
      ∙ ap (λ n. resume fuel more (frame k n ∷ fs) table) index
  walks (list items rest) ok fuel k i more fs table small =
      let left : suc (count rest) + k ≡ suc (count rest + k) = omega arith in
      ap
        (λ n.
          resume (spend (list items rest) fuel) (encode (list items rest) ++ more) (frame n i ∷ fs)
            table)
        left
      ∙ resume-frame _ (count rest + k) i _ fs table (omega arith)
      ∙ walk_list items rest fuel k i more fs table (walks items ok.1) (walks rest ok.2)
          (omega arith) ok.0
  walks (data_item f bytes rest) ok fuel k i more fs table small =
      let left : suc (count rest) + k ≡ suc (count rest + k) = omega arith in
      ap
        (λ n.
          resume (spend (data_item f bytes rest) fuel) (encode (data_item f bytes rest) ++ more)
            (frame n i ∷ fs) table)
        left
      ∙ resume-frame _ (count rest + k) i _ fs table (omega arith)
      ∙ walk_data f bytes rest fuel k i more fs table (walks rest ok.2) (omega arith) ok.0 ok.1
