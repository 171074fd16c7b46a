-- ===== src/TmpVariables/Insert.antt =====
-- A new entry in the table.
use Prim.Native.Nat.{Ordering}
use sc_open.Prelude.{
  ℕ, ◌≡◌, ◌≢◌, refl, sym, ◌∙◌, some, List, [], ◌∷◌, ◌++◌, take, drop, All, inl, inr, arith,
}
use sc_open.TmpVariables.{Text, Variable, name_cmp, key_of, new_variable, place}
use sc_open.TmpVariables.Order.{IsSorted, name_cmp-eq, name_cmp-lt_trans, name_cmp-gt}
use sc_open.TmpVariables.Lookup.{lookup, lookup_hit, lookup_miss, same_name}

-- What insert() does at an entry, by how it compares.
abbrev insert_at : Ordering → (a v : Variable) (vs inserted : List Variable) → List Variable
insert_at Ordering.lt a v vs inserted = v ∷ inserted
insert_at Ordering.eq a v vs inserted = a ∷ v ∷ vs
insert_at Ordering.gt a v vs inserted = a ∷ v ∷ vs

-- The table with one entry more, in front of the first that is not less.
unfoldable pub insert : Variable → List Variable → List Variable
insert a [] = a ∷ []
insert a (v ∷ vs) = insert_at (name_cmp v a) a v vs (insert a vs)

pub place-insert :
    (name value : Text) (n : ℕ) (t : List Variable)
    → take (place (key_of name) t) t ++ new_variable name value n ∷ drop (place (key_of name) t) t
      ≡ insert (new_variable name value n) t
unfolding insert place key_of new_variable name_cmp
place-insert name value n [] = refl
place-insert name value n (v ∷ vs) = ground (arith, place-insert name value n vs)

-- No entry has the name.
abbrev pub New : Text → List Variable → Type 0
New name t = All (λ v. v.name ≢ name) t

All-insert_at {κ} :
    (P : Variable → Type κ) (o : Ordering) (a v : Variable) (vs inserted : List Variable)
    → P a
    → All P (v ∷ vs)
    → All P inserted
    → All P (insert_at o a v vs inserted)
All-insert_at P Ordering.lt a v vs inserted p h k = (h.0, k)
All-insert_at P Ordering.eq a v vs inserted p h k = (p, h)
All-insert_at P Ordering.gt a v vs inserted p h k = (p, h)

pub All-insert {κ} :
    (P : Variable → Type κ) (a : Variable) (t : List Variable) → P a → All P t → All P (insert a t)
unfolding insert
All-insert P a [] p h = (p, h)
All-insert P a (v ∷ vs) p h =
    All-insert_at P (name_cmp v a) a v vs (insert a vs) p h (All-insert P a vs p h.1)

All-less :
    (a v : Variable) (vs : List Variable)
    → name_cmp a v ≡ Ordering.lt
    → All (λ w. name_cmp v w ≡ Ordering.lt) vs
    → All (λ w. name_cmp a w ≡ Ordering.lt) vs
All-less a v [] l h = h
All-less a v (w ∷ ws) l h = (name_cmp-lt_trans a v w l h.0, All-less a v ws l h.1)

insert_at-IsSorted :
    (o : Ordering) (a v : Variable) (vs : List Variable)
    → name_cmp v a ≡ o
    → v.name ≢ a.name
    → IsSorted (v ∷ vs)
    → IsSorted (insert a vs)
    → IsSorted (insert_at o a v vs (insert a vs))
insert_at-IsSorted Ordering.lt a v vs e ne s k =
    (All-insert (λ w. name_cmp v w ≡ Ordering.lt) a vs e s.0, k)
insert_at-IsSorted Ordering.eq a v vs e ne s k = absurd (ne (name_cmp-eq v a e))
insert_at-IsSorted Ordering.gt a v vs e ne s k =
    let l = name_cmp-gt v a e in ((l, All-less a v vs l s.0), s)

pub insert-IsSorted :
    (a : Variable) (t : List Variable) → New a.name t → IsSorted t → IsSorted (insert a t)
unfolding insert
insert-IsSorted a [] new s = (tt, tt)
insert-IsSorted a (v ∷ vs) new s =
    insert_at-IsSorted (name_cmp v a) a v vs refl new.0 s (insert-IsSorted a vs new.1 s.1)

pub lookup-tail :
    (name : Text) (v : Variable) (xs ys : List Variable)
    → lookup name xs ≡ lookup name ys
    → lookup name (v ∷ xs) ≡ lookup name (v ∷ ys)
lookup-tail name v xs ys e = elim (same_name v name) [
  | inl h ↦ lookup_hit name v xs h ∙ sym (lookup_hit name v ys h)
  | inr n ↦ lookup_miss name v xs n ∙ e ∙ sym (lookup_miss name v ys n)
]

insert_at-lookup :
    (o : Ordering) (name : Text) (a v : Variable) (vs inserted : List Variable)
    → a.name ≢ name
    → lookup name inserted ≡ lookup name vs
    → lookup name (insert_at o a v vs inserted) ≡ lookup name (v ∷ vs)
insert_at-lookup Ordering.lt name a v vs inserted ne ih = lookup-tail name v inserted vs ih
insert_at-lookup Ordering.eq name a v vs inserted ne ih = lookup_miss name a (v ∷ vs) ne
insert_at-lookup Ordering.gt name a v vs inserted ne ih = lookup_miss name a (v ∷ vs) ne

pub insert-lookup_other :
    (name : Text) (a : Variable) (t : List Variable)
    → a.name ≢ name
    → lookup name (insert a t) ≡ lookup name t
unfolding insert
insert-lookup_other name a [] ne = lookup_miss name a [] ne
insert-lookup_other name a (v ∷ vs) ne =
    insert_at-lookup (name_cmp v a) name a v vs (insert a vs) ne (insert-lookup_other name a vs ne)

insert_at-lookup_self :
    (o : Ordering) (name : Text) (a v : Variable) (vs inserted : List Variable)
    → a.name ≡ name
    → v.name ≢ name
    → lookup name inserted ≡ some a
    → lookup name (insert_at o a v vs inserted) ≡ some a
insert_at-lookup_self Ordering.lt name a v vs inserted e ne ih = lookup_miss name v inserted ne ∙ ih
insert_at-lookup_self Ordering.eq name a v vs inserted e ne ih = lookup_hit name a (v ∷ vs) e
insert_at-lookup_self Ordering.gt name a v vs inserted e ne ih = lookup_hit name a (v ∷ vs) e

pub insert-lookup_self :
    (name : Text) (a : Variable) (t : List Variable)
    → a.name ≡ name
    → New name t
    → lookup name (insert a t) ≡ some a
unfolding insert
insert-lookup_self name a [] e new = lookup_hit name a [] e
insert-lookup_self name a (v ∷ vs) e new =
    insert_at-lookup_self (name_cmp v a) name a v vs (insert a vs) e new.0
      (insert-lookup_self name a vs e new.1)
