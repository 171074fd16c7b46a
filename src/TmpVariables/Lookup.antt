-- ===== src/TmpVariables/Lookup.antt =====
-- tmp_variable_get() is a search by name.
use Prim.Native.Nat.{Ordering}
use mathlib.Core.Option.{some-ne-none, some-injective}
use sc_open.Prelude.{
  ℕ, zero, suc, ◌≡◌, ◌≢◌, refl, sym, ap, subst, ◌∙◌, Option, none, some, List, [], ◌∷◌, get_elem?,
  get_or, All, inl, inr, arith, ◌⊎◌,
}
use sc_open.TmpVariables.{
  Text, Variable, strcmp, name_cmp, key_of, Search, Got, missing, read_value, found_value,
  tmp_variable_get,
}
use sc_open.TmpVariables.Order.{
  Hashed, IsSorted, Valid, name_cmp_same, name_cmp-eq, strcmp_refl, strcmp-eq,
}

-- The entry of a name, by a search from the front.
unfoldable pub lookup : Text → List Variable → Option Variable
lookup name [] = none
lookup name (v ∷ vs) =
    let rest = lookup name vs in
    elim (strcmp v.name name) [ Ordering.eq ↦ some v | Ordering.lt ↦ rest | Ordering.gt ↦ rest ]

-- What bsearch() promises on a sorted table.
abbrev pub Found : List Variable → Variable → Option ℕ → Type 0
Found t k none = All (λ v. name_cmp k v ≢ Ordering.eq) t
Found t k (some i) = (v : Variable) × (get_elem? t i ≡ some v) × (name_cmp k v ≡ Ordering.eq)

abbrev pub Finds : Search → Type 0
Finds bsearch = (t : List Variable) (k : Variable) → IsSorted t → Found t k (bsearch t k)

pub All-get_elem? {κ} :
    (P : Variable → Type κ) (t : List Variable) (i : ℕ) (v : Variable)
    → All P t
    → get_elem? t i ≡ some v
    → P v
All-get_elem? P [] i v a e = absurd (some-ne-none v (sym e))
All-get_elem? P (u ∷ us) zero v a e = subst P (some-injective u v e) a.0
All-get_elem? P (u ∷ us) (suc i) v a e = All-get_elem? P us i v a.1 e

pub lookup_hit :
    (name : Text) (v : Variable) (vs : List Variable)
    → v.name ≡ name
    → lookup name (v ∷ vs) ≡ some v
unfolding lookup
lookup_hit name v vs e =
    let same = subst (λ m. strcmp v.name m ≡ Ordering.eq) e (strcmp_refl v.name) in
    rw (lookup, same) refl

pub lookup_miss :
    (name : Text) (v : Variable) (vs : List Variable)
    → v.name ≢ name
    → lookup name (v ∷ vs) ≡ lookup name vs
unfolding lookup
lookup_miss name v vs ne = ground (arith, strcmp-eq v.name name)

Ordering-cases : (o : Ordering) → (o ≡ Ordering.eq) ⊎ (o ≢ Ordering.eq)
Ordering-cases Ordering.eq = inl refl
Ordering-cases Ordering.lt = inr (λ e. cc)
Ordering-cases Ordering.gt = inr (λ e. cc)

pub same_name : (v : Variable) (name : Text) → (v.name ≡ name) ⊎ (v.name ≢ name)
same_name v name = elim (Ordering-cases (strcmp v.name name)) [
  | inl e ↦ inl (strcmp-eq v.name name e)
  | inr n ↦ inr (λ e. n (subst (λ m. strcmp v.name m ≡ Ordering.eq) e (strcmp_refl v.name)))
]

apart :
    (u : Variable) (us : List Variable) (name : Text) (i : ℕ) (v : Variable)
    → Valid (u ∷ us)
    → get_elem? us i ≡ some v
    → v.name ≡ name
    → u.name ≢ name
apart u us name i v valid e n m =
    let less = All-get_elem? (λ w. name_cmp u w ≡ Ordering.lt) us i v valid.1.0 e in
    let same = name_cmp_same u v valid.0.0 (All-get_elem? Hashed us i v valid.0.1 e) (m ∙ sym n) in
    cc

-- At most one entry has a name.
pub lookup_at :
    (t : List Variable) (name : Text) (i : ℕ) (v : Variable)
    → Valid t
    → get_elem? t i ≡ some v
    → v.name ≡ name
    → lookup name t ≡ some v
unfolding lookup
lookup_at [] name i v valid e n = absurd (some-ne-none v (sym e))
lookup_at (u ∷ us) name zero v valid e n =
    let same : u ≡ v = some-injective u v e in
    lookup_hit name u us (ap (λ w. w.name) same ∙ n) ∙ ap some same
lookup_at (u ∷ us) name (suc i) v valid e n =
    lookup_miss name u us (apart u us name i v valid e n)
    ∙ lookup_at us name i v (valid.0.1, valid.1.1) e n

lookup-none :
    (t : List Variable) (name : Text)
    → All Hashed t
    → All (λ v. name_cmp (key_of name) v ≢ Ordering.eq) t
    → lookup name t ≡ none
unfolding lookup key_of
lookup-none [] name h a = refl
lookup-none (v ∷ vs) name h a =
    lookup_miss name v vs (λ e. a.0 (name_cmp_same (key_of name) v refl h.0 (sym e)))
    ∙ lookup-none vs name h.1 a.1

-- What bsearch() has found is the entry of the name.
pub Found-lookup :
    (t : List Variable) (name : Text) (r : Option ℕ)
    → Valid t
    → Found t (key_of name) r
    → lookup name t ≡ elim r [ none ↦ none | some i ↦ get_elem? t i ]
unfolding key_of
Found-lookup t name none valid f = lookup-none t name valid.0 f
Found-lookup t name (some i) valid (v, e, c) =
    lookup_at t name i v valid e (sym (name_cmp-eq (key_of name) v c)) ∙ sym e

pub get_or-get_elem? :
    (t : List Variable) (i : ℕ) (v d : Variable) → get_elem? t i ≡ some v → get_or t i d ≡ v
get_or-get_elem? [] i v d e = absurd (some-ne-none v (sym e))
get_or-get_elem? (u ∷ us) zero v d e = some-injective u v e
get_or-get_elem? (u ∷ us) (suc i) v d e = get_or-get_elem? us i v d e

abbrev pub value_of : Option Variable → Got
value_of none = missing
value_of (some v) = read_value v

-- On a valid table tmp_variable_get() reads the value of the entry of the name, as far as its
-- length, and 1 if there is none.
pub tmp_variable_get-lookup :
    (bsearch : Search) (name : Text) (t : List Variable)
    → Finds bsearch
    → Valid t
    → tmp_variable_get bsearch name t ≡ value_of (lookup name t)
unfolding tmp_variable_get
tmp_variable_get-lookup bsearch name t finds valid =
    go (bsearch t (key_of name)) (finds t (key_of name) valid.1)
  where
    go :
        (r : Option ℕ)
        → Found t (key_of name) r
        → found_value bsearch t r ≡ value_of (lookup name t)
    go none f = sym (ap value_of (Found-lookup t name none valid f))
    go (some i) f =
        let (v, e, c) = f in
        ap read_value (get_or-get_elem? t i v (key_of []) e)
        ∙ ap value_of (sym e)
        ∙ sym (ap value_of (Found-lookup t name (some i) valid f))
