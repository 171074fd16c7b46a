-- ===== src/Items/Entries.antt =====
-- The variables that secs_decode() of source/secs_decode_sml.c adds for the data of an item, from its
-- format, its name and its bytes.
use sc_open.Prelude.{
  ℕ, zero, suc, ◌+◌, ◌-◌, ◌*◌, ◌/◌, ◌^◌, Bool, true, false, not, Option, none, some, List, [], ◌∷◌,
  ◌++◌, length, take, drop, ltb, ◌==◌, if◌then◌else◌,
}
use sc_open.Bytes.{from_wire}
use sc_open.Numbers.{Text, ℤ, pos, negsuc, my_utoa, my_itoa, my_btoh}
use sc_open.TmpVariables.{Variable, tmp_variable_add}
use sc_open.Items.Format.{
  Width, one, two, four, eight, width, Format, ascii, binary, boolean, unsigned, signed, float_4,
  float_8, element_size,
}

-- A name and a value for tmp_variable_add().
abbrev pub Entry : Type 0
Entry = Text × Text

unfoldable pub add_all : List Entry → List Variable → List Variable
add_all [] table = table
add_all ((name, value) ∷ es) table = add_all es (tmp_variable_add name value table)

-- The arrays base_name and name have 256 bytes.
unfoldable pub fits : Text → Option Text
fits t = if ltb (length t) 256 then some t else none

-- my_itoa_fmt1() of an index.
unfoldable pub subscript : ℕ → Text
subscript i = b'[' ∷ (my_utoa i ++ b']' ∷ [])

-- The two's complement integer of a width.
unfoldable pub signed_value : Width → ℕ → ℤ
signed_value w n =
    if ltb n (2 ^ (8 * width w - 1)) then pos n else negsuc (2 ^ (8 * width w) - 1 - n)

-- A float is printed by sprintf() of the C library.
module _ (print_float : List ℕ → Text) where
  -- The text of an element from its bytes on the wire.
  unfoldable pub value_text : Format → List ℕ → Option Text
  value_text ascii bytes = some bytes
  value_text boolean bytes = some (if from_wire bytes == 0 then b'0' ∷ [] else b'1' ∷ [])
  value_text binary bytes = some (my_utoa (from_wire bytes))
  value_text (unsigned w) bytes = some (my_utoa (from_wire bytes))
  value_text (signed w) bytes = my_itoa (signed_value w (from_wire bytes))
  value_text float_4 bytes = some (print_float bytes)
  value_text float_8 bytes = some (print_float bytes)

  -- The flag `array` behind the tests on the size.
  unfoldable pub is_array : Format → (size : ℕ) → Bool
  is_array ascii size = false
  is_array boolean size = ltb 1 size
  is_array binary size = ltb 1 size
  is_array (unsigned one) size = not (size == 0)
  is_array (unsigned two) size = ltb 2 size
  is_array (unsigned four) size = ltb 4 size
  is_array (unsigned eight) size = ltb 8 size
  is_array (signed w) size = ltb (width w) size
  is_array float_4 size = ltb 4 size
  is_array float_8 size = ltb 8 size

  -- The variable that an item without data adds first.
  unfoldable pub empty_entry : Format → Text → (size : ℕ) → List Entry
  empty_entry float_4 base size = []
  empty_entry float_8 base size = []
  empty_entry _ base size = if size == 0 then (base, []) ∷ [] else []

  abbrev pub entry : Option Text → Option Text → Option (List Entry) → Option (List Entry)
  entry none value es = none
  entry (some name) none es = none
  entry (some name) (some value) none = none
  entry (some name) (some value) (some es) = some ((name, value) ∷ es)

  -- The loop over the elements, with the count of those that are left.
  unfoldable pub element_entries :
      Format → (base : Text) (array : Bool) (left i : ℕ) → List ℕ → Option (List Entry)
  element_entries f base array zero i p = some []
  element_entries f base array (suc left) i p =
      entry (fits (if array then base ++ subscript (i + 1) else base))
        (value_text f (take (element_size f) p))
        (element_entries f base array left (i + 1) (drop (element_size f) p))

  -- The bytes of a binary array in one text.
  unfoldable pub hex_text : List ℕ → Text
  hex_text [] = []
  hex_text (b ∷ bs) = my_btoh b ++ hex_text bs

  unfoldable pub hex_entries : Format → (base : Text) → List ℕ → Option (List Entry)
  hex_entries binary base bytes =
      entry (fits (base ++ b'[' ∷ b']' ∷ [])) (some (hex_text bytes)) (some [])
  hex_entries _ base bytes = some []

  -- What an array adds behind its elements.
  unfoldable pub array_entries :
      Bool → Format → (base : Text) (array_size : ℕ) → List ℕ → Option (List Entry)
  array_entries false f base array_size bytes = some []
  array_entries true f base array_size bytes = elim (hex_entries f base bytes) [
    | none ↦ none
    | some hex ↦
        elim (entry (fits (base ++ b'[' ∷ b'0' ∷ b']' ∷ [])) (some (my_utoa array_size))
          (some [])) [
            | none ↦ none
            | some count ↦ some (hex ++ (base, b'A' ∷ b'R' ∷ b'R' ∷ b'A' ∷ b'Y' ∷ []) ∷ count)
          ]
  ]

  abbrev pub both : List Entry → Option (List Entry) → Option (List Entry) → Option (List Entry)
  both es none more = none
  both es (some fs) none = none
  both es (some fs) (some gs) = some (es ++ (fs ++ gs))

  -- The variables of an item with data, from its size and the bytes of its elements.
  unfoldable pub data_entries : Format → (base : Text) (size : ℕ) → List ℕ → Option (List Entry)
  data_entries ascii base size bytes = some ((base, bytes) ∷ [])
  data_entries f base size bytes =
      let array_size = size / element_size f in
      both (empty_entry f base size) (element_entries f base (is_array f size) array_size 0 bytes)
        (array_entries (is_array f size) f base array_size bytes)
