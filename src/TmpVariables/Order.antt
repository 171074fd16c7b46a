-- ===== src/TmpVariables/Order.antt =====
-- The order of the variables.
use Prim.Native.Nat.{Ordering}
use sc_open.Prelude.{◌≡◌, refl, ap, ◌∙◌, sym, List, [], ◌∷◌, arith, All}
use sc_open.TmpVariables.{Text, Variable, strcmp, name_cmp, get_hash}

pub strcmp_refl : (xs : Text) → strcmp xs xs ≡ Ordering.eq
unfolding strcmp
strcmp_refl [] = refl
strcmp_refl (x ∷ xs) = ground (arith, strcmp_refl xs)

pub strcmp-eq : (xs ys : Text) → strcmp xs ys ≡ Ordering.eq → xs ≡ ys
unfolding strcmp
strcmp-eq [] [] h = refl
strcmp-eq [] (y ∷ ys) h = cc
strcmp-eq (x ∷ xs) [] h = cc
strcmp-eq (x ∷ xs) (y ∷ ys) h = ground (arith, strcmp-eq xs ys)

strcmp-lt_trans :
    (xs ys zs : Text)
    → strcmp xs ys ≡ Ordering.lt
    → strcmp ys zs ≡ Ordering.lt
    → strcmp xs zs ≡ Ordering.lt
unfolding strcmp
strcmp-lt_trans [] [] [] h k = cc
strcmp-lt_trans [] (y ∷ ys) [] h k = cc
strcmp-lt_trans [] ys (z ∷ zs) h k = refl
strcmp-lt_trans (x ∷ xs) [] zs h k = cc
strcmp-lt_trans (x ∷ xs) (y ∷ ys) [] h k = cc
strcmp-lt_trans (x ∷ xs) (y ∷ ys) (z ∷ zs) h k = ground (arith, strcmp-lt_trans xs ys zs)

strcmp-gt : (xs ys : Text) → strcmp xs ys ≡ Ordering.gt → strcmp ys xs ≡ Ordering.lt
unfolding strcmp
strcmp-gt [] [] h = cc
strcmp-gt [] (y ∷ ys) h = cc
strcmp-gt (x ∷ xs) [] h = refl
strcmp-gt (x ∷ xs) (y ∷ ys) h = ground (arith, strcmp-gt xs ys)

pub name_cmp-lt_trans :
    (a b c : Variable)
    → name_cmp a b ≡ Ordering.lt
    → name_cmp b c ≡ Ordering.lt
    → name_cmp a c ≡ Ordering.lt
unfolding name_cmp
name_cmp-lt_trans a b c h k = ground (arith, strcmp-lt_trans a.name b.name c.name)

pub name_cmp-gt : (a b : Variable) → name_cmp a b ≡ Ordering.gt → name_cmp b a ≡ Ordering.lt
unfolding name_cmp
name_cmp-gt a b h = ground (arith, strcmp-gt a.name b.name)

pub name_cmp-eq : (a b : Variable) → name_cmp a b ≡ Ordering.eq → a.name ≡ b.name
unfolding name_cmp
name_cmp-eq a b h = ground (arith, strcmp-eq a.name b.name)

-- The hash of an entry is that of its name.
abbrev pub Hashed : Variable → Type 0
Hashed v = v.hash ≡ get_hash v.name

pub name_cmp_same :
    (a b : Variable) → Hashed a → Hashed b → a.name ≡ b.name → name_cmp a b ≡ Ordering.eq
unfolding name_cmp
name_cmp_same a b h k e =
    let same : a.hash ≡ b.hash = h ∙ ap get_hash e ∙ sym k in
    rw (same, e) (ground (arith, strcmp_refl b.name))

-- The table is in strictly increasing order.
abbrev pub IsSorted : List Variable → Type 0
IsSorted [] = Unit
IsSorted (v ∷ vs) = All (λ w. name_cmp v w ≡ Ordering.lt) vs × IsSorted vs

-- The invariant of the table.
abbrev pub Valid : List Variable → Type 0
Valid t = All Hashed t × IsSorted t
