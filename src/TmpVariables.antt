-- ===== src/TmpVariables.antt =====
-- source/tmp_variables.c: the table of the temporary variables, in the order of the hash of their
-- names. A text is the bytes of a C string in front of its NUL.
pub mod Order
pub mod Lookup
pub mod Insert
pub mod Update
pub mod Put
pub mod Search
mod Tests
use Prim.Native.Nat.{compare, Ordering}
use sc_open.Prelude.{
  ℕ, zero, suc, ◌+◌, ◌*◌, ◌%◌, ◌^◌, ◌≡◌, ◌≢◌, Option, none, some, List, [], ◌∷◌, ◌++◌, length,
  get_elem?, get_or, set, take, drop, All, leb, if◌then◌else◌,
}

abbrev pub Text : Type 0
Text = List ℕ

pub record Variable : Type 0 where
  pub name : Text
  pub value : Text
  pub length : ℕ
  pub hash : ℕ

-- strcmp(): only its sign is used.
unfoldable pub strcmp : Text → Text → Ordering
strcmp [] [] = Ordering.eq
strcmp [] (y ∷ ys) = Ordering.lt
strcmp (x ∷ xs) [] = Ordering.gt
strcmp (x ∷ xs) (y ∷ ys) =
    let rest = strcmp xs ys in
    elim (compare x y) [
      | Ordering.lt ↦ Ordering.lt
      | Ordering.eq ↦ rest
      | Ordering.gt ↦ Ordering.gt
    ]

-- get_hash(), with the loop over the bytes.
unfoldable pub hash_loop : Text → ℕ → ℕ
hash_loop [] h = h
hash_loop (c ∷ cs) h = hash_loop cs ((c + 31 * h) % 2 ^ 32)

unfoldable pub get_hash : Text → ℕ
get_hash name = hash_loop name 0

-- name_cmp()
unfoldable pub name_cmp : Variable → Variable → Ordering
name_cmp i j = elim (compare i.hash j.hash) [
  | Ordering.lt ↦ Ordering.lt
  | Ordering.gt ↦ Ordering.gt
  | Ordering.eq ↦ strcmp i.name j.name
]

unfoldable pub key_of : Text → Variable
key_of name = record { name = name; value = []; length = 0; hash = get_hash name }

unfoldable pub new_variable : Text → Text → (length : ℕ) → Variable
new_variable name value length = record {
  name = name;
  value = take length value;
  length = length;
  hash = get_hash name;
}

-- The loop that looks for the place of a new variable.
unfoldable pub place : Variable → List Variable → ℕ
place a [] = 0
place a (v ∷ vs) =
    let rest = place a vs in
    elim (name_cmp v a) [ Ordering.lt ↦ suc rest | Ordering.eq ↦ 0 | Ordering.gt ↦ 0 ]

-- The update of a variable that is there: its length stays.
abbrev pub with_value : Variable → Text → Variable
with_value v value = record v { value = value }

-- tmp_variable_get(): its return 1, or 0 with the value. An entry that is longer than the text of its
-- value is read behind that text.
pub data Got : Type 0 where
  missing : Got
  got : (value : Text) → Got
  behind_value : Got

unfoldable pub read_value : Variable → Got
read_value v = if leb v.length (length v.value) then got (take v.length v.value) else behind_value

-- bsearch() with name_cmp(), of the C library: the index of an entry that compares equal.
abbrev pub Search : Type 0
Search = List Variable → Variable → Option ℕ

module _ (bsearch : Search) where
  -- What tmp_variable_put() does with the result of its search.
  unfoldable pub put_at : Text → Text → ℕ → List Variable → Option ℕ → List Variable
  put_at name value length t (some i) = set t i (with_value (get_or t i (key_of name)) value)
  put_at name value length t none =
      let idx = place (key_of name) t in take idx t ++ new_variable name value length ∷ drop idx t

  unfoldable pub tmp_variable_put : Text → Text → ℕ → List Variable → List Variable
  tmp_variable_put name value length [] = new_variable name value length ∷ []
  tmp_variable_put name value length (v ∷ vs) =
      put_at name value length (v ∷ vs) (bsearch (v ∷ vs) (key_of name))

  abbrev pub found_value : List Variable → Option ℕ → Got
  found_value t none = missing
  found_value t (some i) = read_value (get_or t i (key_of []))

  unfoldable pub tmp_variable_get : Text → List Variable → Got
  tmp_variable_get name t = found_value t (bsearch t (key_of name))

-- tmp_variable_add(), without a length: at the end of the table, which is not sorted then.
unfoldable pub tmp_variable_add : Text → Text → List Variable → List Variable
tmp_variable_add name value t = t ++ new_variable name value (length value) ∷ []
