-- ===== src/Variables/Lookup.antt =====
-- What bsearch() finds of a name in a table in order: the only entry of the name.
use Prim.Native.Nat.{Ordering}
use mathlib.Core.Option.{some-ne-none, some-injective}
use sc_open.Prelude.{
  ℕ, zero, suc, ◌≡◌, ◌≢◌, refl, sym, ap, ◌∙◌, Option, none, some, List, [], ◌∷◌, get_elem?, All,
}
use sc_open.TmpVariables.{Text, Variable, strcmp, name_cmp, key_of, Search}
use sc_open.TmpVariables.Order.{Hashed, Valid, strcmp_refl, strcmp-eq, name_cmp_same, name_cmp-eq}
use sc_open.TmpVariables.Lookup.{Found, Finds, All-get_elem?}

-- The index of the first entry of a name.
abbrev pub index_at : Ordering → (rest : Option ℕ) → Option ℕ
index_at Ordering.eq rest = some 0
index_at Ordering.lt rest = elim rest [ none ↦ none | some i ↦ some (suc i) ]
index_at Ordering.gt rest = elim rest [ none ↦ none | some i ↦ some (suc i) ]

unfoldable pub index_of : Text → List Variable → Option ℕ
index_of name [] = none
index_of name (v ∷ vs) = index_at (strcmp v.name name) (index_of name vs)

index_hit :
    (name : Text) (v : Variable) (vs : List Variable)
    → v.name ≡ name
    → index_of name (v ∷ vs) ≡ some 0
unfolding index_of
index_hit name v vs e =
    ap (λ n. index_at (strcmp v.name n) (index_of name vs)) (sym e)
    ∙ ap (λ o. index_at o (index_of name vs)) (strcmp_refl v.name)

index_miss :
    (name : Text) (v : Variable) (vs : List Variable)
    → v.name ≢ name
    → index_of name (v ∷ vs) ≡ elim (index_of name vs) [ none ↦ none | some i ↦ some (suc i) ]
unfolding index_of
index_miss name v vs ne = go (strcmp v.name name) refl
  where
    go :
        (o : Ordering)
        → strcmp v.name name ≡ o
        → index_at o (index_of name vs)
          ≡ elim (index_of name vs) [ none ↦ none | some i ↦ some (suc i) ]
    go Ordering.eq e = absurd (ne (strcmp-eq v.name name e))
    go Ordering.lt e = refl
    go Ordering.gt e = refl

missing :
    (name : Text) (t : List Variable)
    → All Hashed t
    → All (λ v. name_cmp (key_of name) v ≢ Ordering.eq) t
    → index_of name t ≡ none
unfolding index_of key_of
missing name [] h m = refl
missing name (v ∷ vs) h m =
    index_miss name v vs (λ e. m.0 (name_cmp_same (key_of name) v refl h.0 (sym e)))
    ∙ ap (λ o. elim o [ none ↦ none | some i ↦ some (suc i) ]) (missing name vs h.1 m.1)

present :
    (t : List Variable) (name : Text) (i : ℕ) (v : Variable)
    → Valid t
    → get_elem? t i ≡ some v
    → v.name ≡ name
    → index_of name t ≡ some i
unfolding index_of
present [] name i v valid e n = absurd (some-ne-none v (sym e))
present (u ∷ us) name zero v valid e n =
    index_hit name u us (ap (λ w. w.name) (some-injective u v e) ∙ n)
present (u ∷ us) name (suc i) v valid e n =
    let less = All-get_elem? (λ w. name_cmp u w ≡ Ordering.lt) us i v valid.1.0 e in
    let other : u.name ≢ name = λ m.
      (let same =
          name_cmp_same u v valid.0.0 (All-get_elem? Hashed us i v valid.0.1 e) (m ∙ sym n) in
        cc) in
    index_miss name u us other
    ∙ ap (λ o. elim o [ none ↦ none | some j ↦ some (suc j) ])
        (present us name i v (valid.0.1, valid.1.1) e n)

found :
    (name : Text) (t : List Variable) (o : Option ℕ)
    → Valid t
    → Found t (key_of name) o
    → o ≡ index_of name t
unfolding key_of
found name t none valid f = sym (missing name t valid.0 f)
found name t (some i) valid (v, e, c) =
    sym (present t name i v valid e (sym (name_cmp-eq (key_of name) v c)))

pub find-index_of :
    (bsearch : Search) (name : Text) (t : List Variable)
    → Finds bsearch
    → Valid t
    → bsearch t (key_of name) ≡ index_of name t
find-index_of bsearch name t finds valid =
    found name t (bsearch t (key_of name)) valid (finds t (key_of name) valid.1)
