-- ===== src/Variables/Deleted.antt =====
-- What variable_delete() removes. The names in the table start with a scope, '(' or "#(", and the
-- name that it looks for starts with that of the program.
use sc_open.Prelude.{
  ℕ, suc, ◌-◌, ◌≡◌, refl, sym, ap, subst, length-append, inl, inr, Bool, true, false, ◌||◌, Option,
  none, some, List, [], ◌∷◌, ◌++◌, length, take, ◌==◌, All, Bool-cases, arith,
}
use sc_open.TmpVariables.{Text, Variable, key_of, Search}
use sc_open.TmpVariables.Order.{name_cmp-eq}
use sc_open.TmpVariables.Lookup.{Found, Finds, All-get_elem?}
use sc_open.Tokens.{has_prefix}
use sc_open.Variables.{Entry, bases, find, is_wild, delete_matching, delete_at, variable_delete}
use sc_open.Variables.Bases.{InOrder}

-- How the name of a program does not start.
abbrev pub is_scope : ℕ → Bool
is_scope c = (c == b'(') || (c == b'#')

abbrev ScopedText : Text → Type 0
ScopedText [] = ⊥
ScopedText (c ∷ cs) = is_scope c ≡ true

-- A scope is in front of the name.
abbrev pub IsScoped : Variable → Type 0
IsScoped v = ScopedText v.name

scope_clash : (p c : ℕ) → (p == c) ≡ true → is_scope p ≡ false → is_scope c ≡ true → ⊥
scope_clash p c same plain scoped = ground arith

-- No scoped name starts like a text that starts otherwise.
has_prefix_scoped :
    (p : ℕ) (start name : Text)
    → is_scope p ≡ false
    → ScopedText name
    → has_prefix (p ∷ start) name ≡ false
unfolding has_prefix
has_prefix_scoped p start [] plain scoped = absurd scoped
has_prefix_scoped p start (c ∷ cs) plain scoped = elim (Bool-cases (p == c)) [
  | inl same ↦ absurd (scope_clash p c same plain scoped)
  | inr other ↦ rw other refl
]

delete_matching-scoped :
    (bsearch : Search) (p : ℕ) (start : Text) (t : List Entry)
    → is_scope p ≡ false
    → All IsScoped (bases t)
    → delete_matching bsearch (p ∷ start) t ≡ t
unfolding delete_matching
delete_matching-scoped bsearch p start [] plain scoped = refl
delete_matching-scoped bsearch p start (e ∷ es) plain scoped =
    rw (has_prefix_scoped p start e.variable.name plain scoped.0)
      (ap (◌∷◌ e) (delete_matching-scoped bsearch p start es plain scoped.1))

delete_at-scoped :
    (bsearch : Search) (p : ℕ) (full : Text) (t : List Entry) (o : Option ℕ)
    → is_scope p ≡ false
    → All IsScoped (bases t)
    → Found (bases t) (key_of (p ∷ full)) o
    → delete_at bsearch t o ≡ t
unfolding key_of
delete_at-scoped bsearch p full t none plain scoped found = refl
delete_at-scoped bsearch p full t (some i) plain scoped (v, there, same) =
    let name : p ∷ full ≡ v.name = name_cmp-eq (key_of (p ∷ full)) v same in
    let scope : ScopedText (p ∷ full) =
      subst ScopedText (sym name) (All-get_elem? IsScoped (bases t) i v scoped there) in
    cc

-- In a table in order whose names all have their scopes, variable_delete() removes nothing, with
-- and without a wild card: of a program whose name starts neither with '(' nor with '#', it looks
-- for names without a scope, and the table is only sorted.
pub variable_delete_nothing :
    (bsearch : Search) (qsort : List Entry → List Entry) (p c : ℕ) (ps cs default_name label : Text)
    (t : List Entry)
    → Finds bsearch
    → InOrder t
    → All IsScoped (bases t)
    → is_scope p ≡ false
    → variable_delete bsearch qsort
        (record { program_name = p ∷ ps; default_program_name = default_name; label = label })
        (c ∷ cs)
        t
      ≡ qsort t
unfolding variable_delete
variable_delete_nothing bsearch qsort p c ps cs default_name label t finds order scoped plain =
    let rest = ps ++ c ∷ cs in
    let start : suc (length (ps ++ c ∷ cs)) - 1 ≡ suc (length (ps ++ c ∷ cs) - 1) =
      omega (arith, length-append ps (c ∷ cs)) in
    elim (Bool-cases (is_wild bsearch (c ∷ cs))) [
      | inl wild ↦
          rw (wild, start)
            (ap qsort
              (delete_matching-scoped bsearch p (take (length rest - 1) rest) t plain scoped))
      | inr exact ↦ rw exact (
          ap qsort (
            delete_at-scoped bsearch p rest t (find bsearch (p ∷ rest) t) plain scoped
              (finds (bases t) (key_of (p ∷ rest)) order.1)))
    ]
