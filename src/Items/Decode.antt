-- ===== src/Items/Decode.antt =====
-- secs_decode() of source/secs_decode_sml.c: the walk over the bytes of a message, which adds a
-- temporary variable for each value. The arrays e and ie up to l are the frames of the lists that
-- are open, the innermost first; the uint32_t `length` is the length of the bytes that are left, as
-- long as nothing is read past them, and a read past them is an access outside of the message. The
-- text of the log is left out.
pub mod Heads
pub mod Spec
pub mod Walk
pub mod Nested
pub mod Whole
pub mod Ending
pub mod Values
use sc_open.Prelude.{
  ℕ, zero, suc, ◌+◌, ◌-◌, ◌*◌, ◌/◌, ◌%◌, ◌^◌, Bool, true, false, not, ◌&&◌, Option, none, some,
  List, [], ◌∷◌, ◌++◌, length, take, drop, get_or, ltb, leb, ◌==◌, if◌then◌else◌,
}
use sc_open.Bytes.{from_wire}
use sc_open.Numbers.{Text, ℤ, pos, negsuc, my_utoa, my_itoa, my_btoh}
use sc_open.TmpVariables.{Variable, tmp_variable_add}
use sc_open.Items.{ItemHeader, read_item_header}
use sc_open.Items.Format.{
  Width, one, two, four, eight, width, Format, ascii, binary, boolean, unsigned, signed, float_4,
  float_8, list_code, format_of, element_size,
}
use sc_open.Items.Entries.{add_all, data_entries, fits}

-- e[l] and ie[l].
pub record Frame : Type 0 where
  pub left : ℕ
  pub index : ℕ

pub record Decoder : Type 0 where
  pub rest : List ℕ
  pub frames : List Frame
  pub table : List Variable

-- base_name: the prefix with the indexes of the frames, the outermost first.
unfoldable pub base_name : Text → List Frame → Text
base_name prefix [] = prefix
base_name prefix (f ∷ fs) = base_name prefix fs ++ b'.' ∷ my_utoa f.index

-- `while (e[l] == 0) l--;`, where the innermost frame that is left is e[0] or has items to come.
unfoldable pub close : List Frame → Option (List Frame)
close [] = none
close (f ∷ fs) = if f.left == 0 then close fs else some (f ∷ fs)

-- The head of an item, if all of it is there.
unfoldable pub head_size : List ℕ → ℕ
head_size p = let n : ℕ = get_or p 0 0 % 4 in if n == 1 then 2 else if n == 2 then 3 else 4

unfoldable pub item_header : List ℕ → Option ItemHeader
item_header p = if leb (head_size p) (length p) then some (read_item_header p) else none

-- How an item ends: with a frame stack to close, with the return code 1, or outside of an array.
pub data Item : Type 0 where
  next : Decoder → Item
  unknown : List Variable → Item
  outside : Item

pub data Result : Type 0 where
  returned : (iret : ℕ) → List Variable → Result
  out_of_bounds : Result
  out_of_fuel : Result

abbrev counted : Frame → Frame
counted f = record f { left = (f.left + 2 ^ 32 - 1) % 2 ^ 32 }

module _ (print_float : List ℕ → Text) (prefix : Text) where
  -- An item of a format with its name: e[l]-- and its variables.
  unfoldable pub data_item :
      Format → Text → (size : ℕ) → List ℕ → Frame → List Frame → List Variable → Item
  data_item f base size rest top fs table =
      let used = size / element_size f * element_size f in
      if leb used (length rest)
      then elim (data_entries print_float f base size (take used rest)) [
        | none ↦ outside
        | some es ↦
            next (record {
              rest = drop used rest;
              frames = counted top ∷ fs;
              table = add_all es table;
            })
      ]
      else outside

  abbrev pub pushed : (size : ℕ) → Frame → List Frame → List Frame
  pushed zero top fs = counted top ∷ fs
  pushed (suc n) top fs = record { left = suc n; index = 0 } ∷ counted top ∷ fs

  abbrev format_item : Option Format → Text → ItemHeader → Frame → List Frame → List Variable → Item
  format_item none base h top fs table = unknown table
  format_item (some f) base h top fs table = data_item f base h.size h.rest top fs table

  -- An item by its format; that of a list is tested first.
  unfoldable pub item_of : Text → ItemHeader → Frame → List Frame → List Variable → Item
  item_of base h top fs table =
      if h.data_type == list_code
      then next (record {
        rest = h.rest;
        frames = pushed h.size top fs;
        table = tmp_variable_add base (my_utoa h.size) table;
      })
      else format_item (format_of h.data_type) base h top fs table

  -- An item, its name in base_name and the padding of the log in pad, of 256 bytes too.
  abbrev pub named_item : Option Text → ItemHeader → Frame → List Frame → List Variable → Item
  named_item none h top fs table = outside
  named_item (some base) h top fs table =
      if ltb (length (top ∷ fs) * 3 + 30) 256 then item_of base h top fs table else outside

  abbrev pub headed_item : Option ItemHeader → Frame → List Frame → List Variable → Item
  headed_item none top fs table = outside
  headed_item (some h) top fs table =
      let top' = record top { index = top.index + 1 } in
      named_item (fits (base_name prefix (top' ∷ fs))) h top' fs table

  unfoldable pub decode_item : List ℕ → List Frame → List Variable → Item
  decode_item p [] table = outside
  decode_item p (top ∷ fs) table = headed_item (item_header p) top fs table

  abbrev pub closed : Item → (Decoder → Result) → Result
  closed outside f = out_of_bounds
  closed (unknown table) f = returned 1 table
  closed (next d) f = elim (close d.frames) [
    | none ↦ out_of_bounds
    | some frames ↦ f (record d { frames = frames })
  ]

  -- The loop; every round takes an item's head off the bytes.
  unfoldable pub decode_loop : ℕ → Decoder → Result
  decode_loop zero d = out_of_fuel
  decode_loop (suc fuel) d = elim d.rest [
    | [] ↦ returned 0 d.table
    | b ∷ bs ↦ closed (decode_item (b ∷ bs) d.frames d.table) (decode_loop fuel)
  ]

  unfoldable pub secs_decode : List ℕ → List Variable → Result
  secs_decode bytes table =
      decode_loop (suc (length bytes))
        (record { rest = bytes; frames = record { left = 0; index = 0 } ∷ []; table = table })
