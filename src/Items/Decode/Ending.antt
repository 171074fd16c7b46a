-- ===== src/Items/Decode/Ending.antt =====
-- Every round of secs_decode() takes a head off the bytes, so its loop ends on any bytes.
use sc_open.Prelude.{
  ℕ, zero, suc, ◌+◌, ◌*◌, ◌/◌, ◌-◌, ◌<◌, ◌≡◌, ◌≢◌, subst, inl, inr, Option, none, some, List, [],
  ◌∷◌, length, drop, ltb, leb, leb→le, ◌==◌, arith, Bool-cases, length-drop,
}
use sc_open.Numbers.{Text}
use sc_open.TmpVariables.{Variable}
use sc_open.Items.{ItemHeader, read_item_header}
use sc_open.Items.Format.{Format, element_size, list_code, format_of}
use sc_open.Items.Decode.{
  Frame, Decoder, base_name, close, head_size, item_header, Item, next, unknown, outside, Result,
  returned, out_of_bounds, out_of_fuel, counted, data_item, format_item, item_of, named_item,
  decode_item, closed, decode_loop, secs_decode,
}
use sc_open.Items.Entries.{Entry, add_all, fits}

abbrev Stopped : Result → Type 0
Stopped (returned iret table) = Unit
Stopped out_of_bounds = Unit
Stopped out_of_fuel = ⊥

-- What an item leaves is shorter than n bytes.
abbrev IsShorter : ℕ → Item → Type 0
IsShorter n (next d) = length d.rest < n
IsShorter n (unknown table) = Unit
IsShorter n outside = Unit

read_item_header-rest : (p : List ℕ) → length (read_item_header p).rest ≡ length p - head_size p
unfolding read_item_header head_size
read_item_header-rest p = ground (arith, length-drop 2 p, length-drop 3 p, length-drop 4 p)

head_size-positive : (p : List ℕ) → 0 < head_size p
unfolding head_size
head_size-positive p = ground arith

module _ (print_float : List ℕ → Text) (prefix : Text) where
  gathered-IsShorter :
      (o : Option (List Entry)) (n : ℕ) (rest : List ℕ) (frames : List Frame)
      (table : List Variable)
      → length rest < n
      → IsShorter n (elim o [
        | none ↦ outside
        | some es ↦ next (record { rest = rest; frames = frames; table = add_all es table })
      ])
  gathered-IsShorter none n rest frames table h = tt
  gathered-IsShorter (some es) n rest frames table h = h

  data_item-IsShorter :
      (n : ℕ) (f : Format) (base : Text) (size : ℕ) (rest : List ℕ) (top : Frame) (fs : List Frame)
      (table : List Variable)
      → length rest < n
      → IsShorter n (data_item print_float prefix f base size rest top fs table)
  unfolding data_item
  data_item-IsShorter n f base size rest top fs table h =
      let used : ℕ = size / element_size f * element_size f in
      elim (Bool-cases (leb (size / element_size f * element_size f) (length rest))) [
        | inl inside ↦ rw inside (
            gathered-IsShorter _ n (drop used rest) (counted top ∷ fs) table
              (omega (arith, length-drop used rest)))
        | inr over ↦ rw over tt
      ]

  format_item-IsShorter :
      (o : Option Format) (base : Text) (h : ItemHeader) (top : Frame) (fs : List Frame)
      (table : List Variable) (n : ℕ)
      → length h.rest < n
      → IsShorter n (format_item print_float prefix o base h top fs table)
  format_item-IsShorter none base h top fs table n short = tt
  format_item-IsShorter (some f) base h top fs table n short =
      data_item-IsShorter n f base h.size h.rest top fs table short

  item_of-IsShorter :
      (base : Text) (h : ItemHeader) (top : Frame) (fs : List Frame) (table : List Variable) (n : ℕ)
      → length h.rest < n
      → IsShorter n (item_of print_float prefix base h top fs table)
  unfolding item_of
  item_of-IsShorter base h top fs table n short = elim (Bool-cases (h.data_type == list_code)) [
    | inl is_list ↦ rw is_list short
    | inr other ↦
        rw other (format_item-IsShorter (format_of h.data_type) base h top fs table n short)
  ]

  named_item-IsShorter :
      (o : Option Text) (h : ItemHeader) (top : Frame) (fs : List Frame) (table : List Variable)
      (n : ℕ)
      → length h.rest < n
      → IsShorter n (named_item print_float prefix o h top fs table)
  named_item-IsShorter none h top fs table n short = tt
  named_item-IsShorter (some base) h top fs table n short =
      elim (Bool-cases (ltb (suc (length fs) * 3 + 30) 256)) [
        | inl deep ↦ rw deep (item_of-IsShorter base h top fs table n short)
        | inr over ↦ rw over tt
      ]

  decode_item-IsShorter :
      (b : ℕ) (bs : List ℕ) (frames : List Frame) (table : List Variable)
      → IsShorter (suc (length bs)) (decode_item print_float prefix (b ∷ bs) frames table)
  unfolding decode_item item_header
  decode_item-IsShorter b bs [] table = tt
  decode_item-IsShorter b bs (top ∷ fs) table =
      elim (Bool-cases (leb (head_size (b ∷ bs)) (suc (length bs)))) [
        | inl whole ↦ rw whole (
            named_item-IsShorter
              (fits (base_name prefix ((record top { index = top.index + 1 }) ∷ fs)))
              (read_item_header (b ∷ bs)) (record top { index = top.index + 1 }) fs table
              (suc (length bs))
              (omega (
                arith,
                read_item_header-rest (b ∷ bs),
                leb→le _ _ whole,
                head_size-positive (b ∷ bs),
              )))
        | inr part ↦ rw part tt
      ]

  closed-Stopped :
      (x : Item) (n : ℕ) (g : Decoder → Result)
      → IsShorter n x
      → ((d : Decoder) → length d.rest < n → Stopped (g d))
      → Stopped (closed print_float prefix x g)
  closed-Stopped outside n g short stops = tt
  closed-Stopped (unknown table) n g short stops = tt
  closed-Stopped (next d) n g short stops = with_frames (close d.frames)
    where
      with_frames :
          (o : Option (List Frame))
          → Stopped
              (elim o [ none ↦ out_of_bounds | some frames ↦ g (record d { frames = frames }) ])
      with_frames none = tt
      with_frames (some frames) = stops (record d { frames = frames }) short

  round-Stopped :
      (rest : List ℕ) (frames : List Frame) (table : List Variable) (g : Decoder → Result)
      → ((d : Decoder) → length d.rest < length rest → Stopped (g d))
      → Stopped (elim rest [
        | [] ↦ returned 0 table
        | b ∷ bs ↦
            closed print_float prefix (decode_item print_float prefix (b ∷ bs) frames table) g
      ])
  round-Stopped [] frames table g stops = tt
  round-Stopped (b ∷ bs) frames table g stops =
      closed-Stopped (decode_item print_float prefix (b ∷ bs) frames table) (suc (length bs)) g
        (decode_item-IsShorter b bs frames table) stops

  decode_loop-Stopped :
      (fuel : ℕ) (d : Decoder)
      → length d.rest < fuel
      → Stopped (decode_loop print_float prefix fuel d)
  unfolding decode_loop
  decode_loop-Stopped zero d h = absurd (omega arith)
  decode_loop-Stopped (suc fuel) d h =
      round-Stopped d.rest d.frames d.table (decode_loop print_float prefix fuel)
        λ e short. decode_loop-Stopped fuel e (omega arith)

  -- secs_decode() comes to an end on any bytes, with a return code or outside of an array.
  pub secs_decode-ends :
      (bytes : List ℕ) (table : List Variable)
      → secs_decode print_float prefix bytes table ≢ out_of_fuel
  unfolding secs_decode
  secs_decode-ends bytes table e =
      subst Stopped e (decode_loop-Stopped (suc (length bytes)) _ (omega arith))
