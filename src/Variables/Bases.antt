-- ===== src/Variables/Bases.antt =====
-- The order of a table of source/variables.c, which is that of its entries without their types, under
-- an assignment and an insertion.
use Prim.Native.Nat.{Ordering}
use sc_open.Prelude.{ℕ, zero, suc, ◌≡◌, refl, ap, ◌∙◌, List, [], ◌∷◌, ◌++◌, length, take, drop, All}
use sc_open.TmpVariables.{Text, Variable, name_cmp, key_of, new_variable, place}
use sc_open.TmpVariables.Order.{Hashed, IsSorted, Valid}
use sc_open.TmpVariables.Insert.{place-insert, insert}
use sc_open.Variables.{VarType, Entry, bases, assign, new_entry, add_entry, Put, done, fatal}

bases-take : (n : ℕ) (t : List Entry) → bases (take n t) ≡ take n (bases t)
bases-take zero t = refl
bases-take (suc n) [] = refl
bases-take (suc n) (e ∷ es) = ap (◌∷◌ e.variable) (bases-take n es)

bases-drop : (n : ℕ) (t : List Entry) → bases (drop n t) ≡ drop n (bases t)
bases-drop zero t = refl
bases-drop (suc n) [] = refl
bases-drop (suc n) (e ∷ es) = bases-drop n es

bases-append : (t u : List Entry) → bases (t ++ u) ≡ bases t ++ bases u
bases-append [] u = refl
bases-append (e ∷ es) u = ap (◌∷◌ e.variable) (bases-append es u)

-- A new entry is inserted as in the table of the temporary variables.
pub bases-add_entry :
    (name value : Text) (type : VarType) (t : List Entry)
    → bases (add_entry name value type t)
      ≡ insert (new_variable name value (length value)) (bases t)
unfolding add_entry new_entry
bases-add_entry name value type t =
    let idx = place (key_of name) (bases t) in
    bases-append (take idx t) (new_entry name value type ∷ drop idx t)
    ∙ ap (λ b. b ++ new_variable name value (length value) ∷ bases (drop idx t)) (bases-take idx t)
    ∙ ap (λ b. take idx (bases t) ++ new_variable name value (length value) ∷ b) (bases-drop idx t)
    ∙ place-insert name value (length value) (bases t)

All-assign {κ} :
    (P : Variable → Type κ) (value : Text) (t : List Entry) (i : ℕ)
    → ((v : Variable) → P v → P (record v { value = value; length = length value }))
    → All P (bases t)
    → All P (bases (assign value t i))
unfolding assign
All-assign P value [] i keep h = h
All-assign P value (e ∷ es) zero keep h = (keep e.variable h.0, h.1)
All-assign P value (e ∷ es) (suc i) keep h = (h.0, All-assign P value es i keep h.1)

assign-IsSorted :
    (value : Text) (t : List Entry) (i : ℕ)
    → IsSorted (bases t)
    → IsSorted (bases (assign value t i))
unfolding assign name_cmp
assign-IsSorted value [] i s = s
assign-IsSorted value (e ∷ es) zero s = s
assign-IsSorted value (e ∷ es) (suc i) s = (
  All-assign (λ w. name_cmp e.variable w ≡ Ordering.lt) value es i (λ w h. h) s.0,
  assign-IsSorted value es i s.1,
)

-- In strictly increasing order of name_cmp(), each entry with the hash of its name.
abbrev pub InOrder : List Entry → Type 0
InOrder t = Valid (bases t)

abbrev pub LeavesOrder : Put → Type 0
LeavesOrder (done t) = InOrder t
LeavesOrder fatal = Unit
LeavesOrder Put.out_of_bounds = Unit

pub assign-InOrder :
    (value : Text) (t : List Entry) (i : ℕ) → InOrder t → InOrder (assign value t i)
assign-InOrder value t i h =
    (All-assign Hashed value t i (λ v k. k) h.0, assign-IsSorted value t i h.1)
