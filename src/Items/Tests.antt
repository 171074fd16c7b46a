-- ===== src/Items/Tests.antt =====
-- Items at concrete inputs.
use sc_open.Prelude.{ℕ, ◌≡◌, ◌≢◌, refl, true, List, [], ◌∷◌, arith}
use sc_open.Numbers.{Text}
use sc_open.Items.{set_size_bytes, store_data}
use sc_open.Items.Format.{two, boolean, ascii, unsigned}
use sc_open.Items.Tree.{Forest, end, list, data_item, IsEncodable}
use sc_open.Items.Decode.{Result, secs_decode}
use sc_open.Items.Decode.Ending.{secs_decode-ends}
use sc_open.Items.Encode.Print.{Sml, finish, nested, leaf, texts, booleans, unsigneds}

-- A text item of two bytes.
store_data_run : store_data 0x40 (0x48 ∷ 0x69 ∷ []) ≡ 0x41 ∷ 2 ∷ 0x48 ∷ 0x69 ∷ []
unfolding store_data set_size_bytes
store_data_run = refl

abbrev print_none : List ℕ → Text
print_none bytes = []

abbrev some_prefix : Text
some_prefix = b'm' ∷ []

-- A list of a text and a number of two bytes, and a boolean behind it.
abbrev some_items : Forest
some_items =
    list (data_item ascii (0x48 ∷ 0x69 ∷ []) (data_item (unsigned two) (1 ∷ 44 ∷ []) end))
      (data_item boolean (1 ∷ []) end)

some_items-IsEncodable : IsEncodable some_items
some_items-IsEncodable =
    (omega arith, (omega arith, refl, (omega arith, refl, tt)), (omega arith, refl, tt))

secs_decode-ends_example :
    secs_decode print_none some_prefix (1 ∷ 9 ∷ 0x41 ∷ []) [] ≢ Result.out_of_fuel
secs_decode-ends_example = secs_decode-ends print_none some_prefix (1 ∷ 9 ∷ 0x41 ∷ []) []

-- The same items in a program.
abbrev some_sml : Sml
some_sml =
    nested (leaf (texts ((0x48 ∷ 0x69 ∷ []) ∷ [])) (leaf (unsigneds two (300 ∷ [])) finish))
      (leaf (booleans (true ∷ [])) finish)
