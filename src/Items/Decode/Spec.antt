-- ===== src/Items/Decode/Spec.antt =====
-- What secs_decode() makes of the items of a message, item by item: the variables in their order,
-- with the index of an item behind the name of the list that it stands in.
use sc_open.Prelude.{
  ℕ, ◌+◌, ◌*◌, suc, Option, none, some, List, [], ◌∷◌, ◌++◌, length, ltb, ◌≡◌, refl, if◌then◌else◌,
  ap,
}
use sc_open.Numbers.{Text, my_utoa}
use sc_open.TmpVariables.{Variable}
use sc_open.Items.Tree.{Forest, end, list, data_item, count}
use sc_open.Items.Decode.{Result, out_of_bounds}
use sc_open.Items.Entries.{Entry, add_all, fits, data_entries}

abbrev pub joined : Option (List Entry) → Option (List Entry) → Option (List Entry)
joined none b = none
joined (some es) none = none
joined (some es) (some fs) = some (es ++ fs)

-- The name of the item i of the sequence of a name.
abbrev pub item_name : Text → ℕ → Text
item_name base i = base ++ b'.' ∷ my_utoa i

abbrev pub named : Option Text → (Text → Option (List Entry)) → Option (List Entry)
named none f = none
named (some name) f = f name

-- The variables of a sequence at a depth behind i items; none, when a name or the padding of the
-- log leaves its array of 256 bytes.
module _ (print_float : List ℕ → Text) where
  unfoldable pub entries : (depth : ℕ) (base : Text) (i : ℕ) → Forest → Option (List Entry)
  entries depth base i end = some []
  entries depth base i (list items rest) =
      let inside = entries (suc depth) (item_name base (i + 1)) 0 items in
      let behind = entries depth base (i + 1) rest in
      joined
        (named (fits (item_name base (i + 1))) λ name.
          if ltb (depth * 3 + 30) 256 then some ((name, my_utoa (count items)) ∷ []) else none)
        (joined inside behind)
  entries depth base i (data_item f bytes rest) =
      let behind = entries depth base (i + 1) rest in
      joined
        (named (fits (item_name base (i + 1))) λ name.
          if ltb (depth * 3 + 30) 256
          then data_entries print_float f name (length bytes) bytes
          else none)
        behind

-- What is left to do with the table that has the variables.
abbrev pub outcome : Option (List Entry) → List Variable → (List Variable → Result) → Result
outcome none table f = out_of_bounds
outcome (some es) table f = f (add_all es table)

add_all-append :
    (es fs : List Entry) (table : List Variable)
    → add_all (es ++ fs) table ≡ add_all fs (add_all es table)
unfolding add_all
add_all-append [] fs table = refl
add_all-append (e ∷ es) fs table = add_all-append es fs _

pub outcome-joined :
    (a b : Option (List Entry)) (table : List Variable) (f : List Variable → Result)
    → outcome (joined a b) table f ≡ outcome a table (λ t. outcome b t f)
outcome-joined none b table f = refl
outcome-joined (some es) none table f = refl
outcome-joined (some es) (some fs) table f = ap f (add_all-append es fs table)

pub outcome-ap :
    (o : Option (List Entry)) (table : List Variable) {f g : List Variable → Result}
    → ((t : List Variable) → f t ≡ g t)
    → outcome o table f ≡ outcome o table g
outcome-ap none table h = refl
outcome-ap (some es) table h = h _
