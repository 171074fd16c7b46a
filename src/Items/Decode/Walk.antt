-- ===== src/Items/Decode/Walk.antt =====
-- A round of the loop of secs_decode() on an item that is written whole.
use sc_open.Prelude.{
  ℕ, suc, ◌+◌, ◌*◌, ◌/◌, ◌%◌, ◌^◌, ◌-◌, ◌<◌, ◌≡◌, refl, ap, ◌∙◌, inl, inr, true, Option, none, some,
  List, [], ◌∷◌, ◌++◌, length, take, drop, ltb, leb, if◌then◌else◌, arith, Bool-cases,
  length-append, take-append, drop-append,
}
use sc_open.Numbers.{Text, my_utoa}
use sc_open.TmpVariables.{Variable}
use sc_open.Items.{store_data}
use sc_open.Items.Format.{Format, code, list_code, element_size}
use sc_open.Items.Tree.{list_head}
use sc_open.Items.Decode.{
  Frame, Decoder, base_name, counted, next, outside, Result, data_item, pushed, item_of, named_item,
  decode_item, closed,
}
use sc_open.Items.Entries.{Entry, add_all, fits, data_entries}
use sc_open.Items.Decode.Heads.{
  item_header-store_data, item_header-list_head, format_of-code, whole_elements,
}
use sc_open.Items.Decode.Spec.{item_name, named, outcome}

-- The frame of a list of which e items are left, modulo the width of e[l].
abbrev pub frame : (left index : ℕ) → Frame
frame e i = record { left = e % 2 ^ 32; index = i }

pub counted-frame : (e i : ℕ) → counted (frame (suc e) i) ≡ frame e i
counted-frame e i =
    let wrapped : (suc e % 2 ^ 32 + 2 ^ 32 - 1) % 2 ^ 32 ≡ e % 2 ^ 32 = omega arith in
    ap (λ n. record { left = n; index = i }) wrapped

module _ (print_float : List ℕ → Text) (prefix : Text) (g : Decoder → Result) where
  abbrev after : List ℕ → List Frame → List Variable → Result
  after rest frames t =
      closed print_float prefix (next (record { rest = rest; frames = frames; table = t })) g

  gathered :
      (o : Option (List Entry)) (rest : List ℕ) (frames : List Frame) (table : List Variable)
      → closed print_float prefix
          (elim o [
            | none ↦ outside
            | some es ↦ next (record { rest = rest; frames = frames; table = add_all es table })
          ])
          g
        ≡ outcome o table (after rest frames)
  gathered none rest frames table = refl
  gathered (some es) rest frames table = refl

  data_item-whole :
      (f : Format) (base : Text) (bytes rest : List ℕ) (top : Frame) (fs : List Frame)
      (table : List Variable)
      → length bytes % element_size f ≡ 0
      → closed print_float prefix
          (data_item print_float prefix f base (length bytes) (bytes ++ rest) top fs table)
          g
        ≡ outcome
            (data_entries print_float f base (length bytes) bytes)
            table
            (after rest (counted top ∷ fs))
  unfolding data_item
  data_item-whole f base bytes rest top fs table whole =
      let es = data_entries print_float f base (length bytes) in
      let left : List ℕ → List Variable → Result = λ r. after r (counted top ∷ fs) in
      let used = whole_elements f (length bytes) whole in
      let inside : leb (length bytes / element_size f * element_size f) (length (bytes ++ rest))
          ≡ true =
        rw used (ground (arith, length-append bytes rest)) in
      rw inside (
        gathered (es (take _ (bytes ++ rest))) (drop _ (bytes ++ rest)) (counted top ∷ fs) table
        ∙ ap (λ n. outcome (es (take n (bytes ++ rest))) table (left (drop n (bytes ++ rest)))) used
        ∙ ap (λ r. outcome (es r) table (left (drop (length bytes) (bytes ++ rest))))
            (take-append bytes rest (length bytes) refl)
        ∙ ap (λ r. outcome (es bytes) table (left r)) (drop-append bytes rest (length bytes) refl))

  abbrev data_spec : (depth : ℕ) → Format → List ℕ → Text → Option (List Entry)
  data_spec depth f bytes name =
      if ltb (depth * 3 + 30) 256
      then data_entries print_float f name (length bytes) bytes
      else none

  named_data :
      (o : Option Text) (f : Format) (bytes rest : List ℕ) (top : Frame) (fs : List Frame)
      (table : List Variable)
      → length bytes % element_size f ≡ 0
      → closed print_float prefix
          (named_item print_float prefix o
            (record { data_type = code f; size = length bytes; rest = bytes ++ rest })
            top
            fs
            table)
          g
        ≡ outcome
            (named o (data_spec (suc (length fs)) f bytes))
            table
            (after rest (counted top ∷ fs))
  unfolding item_of
  named_data none f bytes rest top fs table whole = refl
  named_data (some name) f bytes rest top fs table whole =
      let tests = format_of-code f in
      elim (Bool-cases (ltb (suc (length fs) * 3 + 30) 256)) [
        | inl deep ↦
            rw deep (rw (tests.0, tests.1) (data_item-whole f name bytes rest top fs table whole))
        | inr over ↦ rw over refl
      ]

  -- The round on an item with data.
  pub decode_item-data :
      (f : Format) (bytes rest : List ℕ) (e i : ℕ) (fs : List Frame) (table : List Variable)
      → length bytes < 2 ^ 24
      → length bytes % element_size f ≡ 0
      → closed print_float prefix
          (decode_item print_float prefix
            (store_data (code f) bytes ++ rest)
            (frame (suc e) i ∷ fs)
            table)
          g
        ≡ outcome
            (named
              (fits (item_name (base_name prefix fs) (i + 1)))
              (data_spec (suc (length fs)) f bytes))
            table
            (after rest (frame e (i + 1) ∷ fs))
  unfolding decode_item base_name
  decode_item-data f bytes rest e i fs table small whole =
      rw (item_header-store_data f bytes rest small) (
        named_data (fits (item_name (base_name prefix fs) (i + 1))) f bytes rest
          (frame (suc e) (i + 1)) fs table whole
        ∙ ap
            (λ top.
              outcome
                (named (fits (item_name (base_name prefix fs) (i + 1)))
                  (data_spec (suc (length fs)) f bytes))
                table (after rest (top ∷ fs)))
            (counted-frame e (i + 1)))

  abbrev list_spec : (depth num : ℕ) → Text → Option (List Entry)
  list_spec depth num name =
      if ltb (depth * 3 + 30) 256 then some ((name, my_utoa num) ∷ []) else none

  named_list :
      (o : Option Text) (num : ℕ) (rest : List ℕ) (top : Frame) (fs : List Frame)
      (table : List Variable)
      → closed print_float prefix
          (named_item print_float prefix o
            (record { data_type = list_code; size = num; rest = rest })
            top
            fs
            table)
          g
        ≡ outcome
            (named o (list_spec (suc (length fs)) num))
            table
            (after rest (pushed print_float prefix num top fs))
  unfolding item_of add_all
  named_list none num rest top fs table = refl
  named_list (some name) num rest top fs table =
      elim (Bool-cases (ltb (suc (length fs) * 3 + 30) 256)) [
        | inl deep ↦ rw deep refl
        | inr over ↦ rw over refl
      ]

  -- The round on the head of a list.
  pub decode_item-list :
      (num : ℕ) (rest : List ℕ) (e i : ℕ) (fs : List Frame) (table : List Variable)
      → num < 2 ^ 24
      → closed print_float prefix
          (decode_item print_float prefix (list_head num ++ rest) (frame (suc e) i ∷ fs) table)
          g
        ≡ outcome
            (named
              (fits (item_name (base_name prefix fs) (i + 1)))
              (list_spec (suc (length fs)) num))
            table
            (after rest (pushed print_float prefix num (frame (suc e) (i + 1)) fs))
  unfolding decode_item base_name
  decode_item-list num rest e i fs table small = rw (item_header-list_head num rest small) (
      named_list (fits (item_name (base_name prefix fs) (i + 1))) num rest (frame (suc e) (i + 1))
        fs table)
