-- ===== src/Items/Meaning.antt =====
-- What the items of a program mean: the variables that a receiver is to have of them, by the names and
-- values of the program's own writing.
use sc_open.Prelude.{
  ℕ, suc, ◌+◌, ◌*◌, Bool, true, false, Option, none, some, List, [], ◌∷◌, ◌++◌, length, map, ltb,
  if◌then◌else◌,
}
use sc_open.Numbers.{Text, my_utoa}
use sc_open.Items.Format.{one, two, four, eight}
use sc_open.Items.Encode.Print.{
  Values, texts, booleans, unsigneds, Sml, finish, nested, leaf, all_text,
}

abbrev pub Meant : Type 0
Meant = Option (List (Text × Text))

abbrev pub and_then : Meant → Meant → Meant
and_then none b = none
and_then (some es) none = none
and_then (some es) (some fs) = some (es ++ fs)

-- A variable, where its name fits an array of 256 bytes.
abbrev pub shown : (name value : Text) → Meant
shown name value = if ltb (length name) 256 then some ((name, value) ∷ []) else none

-- name[i]
abbrev pub place_of : Text → ℕ → Text
place_of base i = base ++ b'[' ∷ (my_utoa i ++ b']' ∷ [])

-- base[i + 1], base[i + 2] and so on.
unfoldable pub numbered : (base : Text) (i : ℕ) → List Text → Meant
numbered base i [] = some []
numbered base i (x ∷ xs) = and_then (shown (place_of base (i + 1)) x) (numbered base (i + 1) xs)

-- One value has the name of the item, none is the empty text; several are an array.
unfoldable pub single : (base : Text) → List Text → Meant
single base [] = some ((base, []) ∷ [])
single base (x ∷ []) = shown base x
single base (x ∷ y ∷ xs) = and_then (numbered base 0 (x ∷ y ∷ xs)) (
    and_then (some ((base, b'A' ∷ b'R' ∷ b'R' ∷ b'A' ∷ b'Y' ∷ []) ∷ []))
      (shown (base ++ b'[' ∷ b'0' ∷ b']' ∷ []) (my_utoa (length (x ∷ y ∷ xs)))))

-- For U1 one value is an array already.
unfoldable pub array : (base : Text) → List Text → Meant
array base [] = some ((base, []) ∷ [])
array base (x ∷ xs) = and_then (numbered base 0 (x ∷ xs)) (
    and_then (some ((base, b'A' ∷ b'R' ∷ b'R' ∷ b'A' ∷ b'Y' ∷ []) ∷ []))
      (shown (base ++ b'[' ∷ b'0' ∷ b']' ∷ []) (my_utoa (length (x ∷ xs)))))

abbrev pub digit_of : Bool → Text
digit_of false = b'0' ∷ []
digit_of true = b'1' ∷ []

-- The variables of an item under a name.
unfoldable pub values : Values → (base : Text) → Meant
values (texts ts) base = some ((base, all_text ts) ∷ [])
values (booleans bs) base = single base (map digit_of bs)
values (unsigneds one ns) base = array base (map my_utoa ns)
values (unsigneds two ns) base = single base (map my_utoa ns)
values (unsigneds four ns) base = single base (map my_utoa ns)
values (unsigneds eight ns) base = single base (map my_utoa ns)

unfoldable pub size : Sml → ℕ
size finish = 0
size (nested items rest) = 1 + size rest
size (leaf v rest) = 1 + size rest

-- The name of an item, if it fits its array and so does the line of the log at its depth.
abbrev pub under : (depth : ℕ) (base : Text) (i : ℕ) → (Text → Meant) → Meant
under depth base i f =
    let name = base ++ b'.' ∷ my_utoa i in
    if ltb (length name) 256 then (if ltb (depth * 3 + 30) 256 then f name else none) else none

-- The variables of items at a depth, under the name of their list, behind i items of it.
unfoldable pub variables : (depth : ℕ) (base : Text) (i : ℕ) → Sml → Meant
variables depth base i finish = some []
variables depth base i (nested items rest) =
    let inside = variables (suc depth) (base ++ b'.' ∷ my_utoa (i + 1)) 0 items in
    let behind = variables depth base (i + 1) rest in
    and_then (under depth base (i + 1) (λ name. some ((name, my_utoa (size items)) ∷ [])))
      (and_then inside behind)
variables depth base i (leaf v rest) =
    let behind = variables depth base (i + 1) rest in
    and_then (under depth base (i + 1) (values v)) behind
