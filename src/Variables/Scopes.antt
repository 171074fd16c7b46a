-- ===== src/Variables/Scopes.antt =====
-- What variable_get() reads, by the names alone: the scopes from the inner to the outer.
use Prim.Native.Nat.{Ordering}
use sc_open.Prelude.{
  ℕ, ◌≡◌, refl, sym, ap, ◌∙◌, Option, none, some, List, [], ◌∷◌, ◌++◌, take, get_or,
}
use sc_open.TmpVariables.{Text, strcmp, Search}
use sc_open.TmpVariables.Lookup.{Finds}
use sc_open.Variables.{
  VarType, vt_user_define, vt_user_global, vt_user_local, vt_user, vt_user_ref, vt_sc, vt_label,
  Entry, Place, program_scope, label_scope, bases, no_entry, value_at, Got, got, find,
  got_reference, got_kind, got_at, got_found, get_in, get_label, variable_get,
}
use sc_open.Variables.Bases.{InOrder}
use sc_open.Variables.Lookup.{index_at, index_of, find-index_of}

abbrev pub entry_at : Ordering → Entry → (rest : Option Entry) → Option Entry
entry_at Ordering.eq e rest = some e
entry_at Ordering.lt e rest = rest
entry_at Ordering.gt e rest = rest

-- The first entry of a name.
unfoldable pub entry_of : Text → List Entry → Option Entry
entry_of name [] = none
entry_of name (e ∷ es) = entry_at (strcmp e.variable.name name) e (entry_of name es)

abbrev pub value_text : Entry → Text
value_text e = take e.variable.length e.variable.value

abbrev pub dereferenced : Option Entry → Got
dereferenced none = got 1 []
dereferenced (some e) = got 0 (value_text e)

-- A reference stands for the variable that its value names.
abbrev pub followed : VarType → Entry → List Entry → Got
followed vt_user_ref e t = dereferenced (entry_of (value_text e) t)
followed _ e t = got 0 (value_text e)

abbrev pub read_entry : VarType → (name : Text) → Entry → List Entry → Got
read_entry vt_user_ref name e t = got 0 name
read_entry _ name e t = followed e.kind e t

abbrev pub or_behind : VarType → Text → List Entry → Option Entry → Got → Got
or_behind type name t none behind = behind
or_behind type name t (some e) behind = read_entry type name e t

-- The first name of these that is there.
abbrev pub first_of : VarType → List Entry → List (Option Text) → Got
first_of type t [] = got 1 []
first_of type t (none ∷ names) = Got.out_of_bounds
first_of type t (some name ∷ names) =
    or_behind type name t (entry_of name t) (first_of type t names)

abbrev pub in_scope : Option Text → Text → Option Text
in_scope none name = none
in_scope (some scope) name = some (scope ++ name)

-- The names with the scopes of a place: its label, its program and the default program.
abbrev pub outer_names : Place → VarType → Text → List (Option Text)
outer_names p type name =
    in_scope (program_scope type p.program_name) name
    ∷ in_scope (program_scope type p.default_program_name) name
    ∷ []

abbrev pub names_from : (label : Text) → Place → VarType → Text → List (Option Text)
names_from [] p type name = outer_names p type name
names_from (c ∷ cs) p type name =
    in_scope (label_scope type p.program_name (c ∷ cs)) name ∷ outer_names p type name

abbrev pub at_index : List Entry → Option ℕ → Option Entry
at_index t none = none
at_index t (some i) = some (get_or t i no_entry)

entry_of-index_of :
    (name : Text) (t : List Entry) → entry_of name t ≡ at_index t (index_of name (bases t))
unfolding entry_of index_of
entry_of-index_of name [] = refl
entry_of-index_of name (e ∷ es) =
    go (strcmp e.variable.name name) (index_of name (bases es)) (entry_of-index_of name es)
  where
    go :
        (o : Ordering) (r : Option ℕ)
        → entry_of name es ≡ at_index es r
        → entry_at o e (entry_of name es) ≡ at_index (e ∷ es) (index_at o r)
    go Ordering.eq r h = refl
    go Ordering.lt none h = h
    go Ordering.lt (some i) h = h
    go Ordering.gt none h = h
    go Ordering.gt (some i) h = h

module _ (bsearch : Search) (finds : Finds bsearch) where
  pub find-entry_of :
      (name : Text) (t : List Entry)
      → InOrder t
      → at_index t (find bsearch name t) ≡ entry_of name t
  find-entry_of name t order =
      ap (at_index t) (find-index_of bsearch name (bases t) finds order)
      ∙ sym (entry_of-index_of name t)

  got_reference-dereferenced :
      (t : List Entry) (o : Option ℕ) → got_reference bsearch t o ≡ dereferenced (at_index t o)
  got_reference-dereferenced t none = refl
  got_reference-dereferenced t (some i) = refl

  got_kind-followed :
      (kind : VarType) (t : List Entry) (i : ℕ)
      → InOrder t
      → got_kind bsearch kind t i ≡ followed kind (get_or t i no_entry) t
  got_kind-followed vt_user_ref t i order =
      got_reference-dereferenced t (find bsearch (value_at t i) t)
      ∙ ap dereferenced (find-entry_of (value_at t i) t order)
  got_kind-followed vt_user_define t i order = refl
  got_kind-followed vt_user_global t i order = refl
  got_kind-followed vt_user_local t i order = refl
  got_kind-followed vt_user t i order = refl
  got_kind-followed vt_sc t i order = refl
  got_kind-followed vt_label t i order = refl

  got_at-read_entry :
      (type : VarType) (name : Text) (t : List Entry) (i : ℕ)
      → InOrder t
      → got_at bsearch type name t i ≡ read_entry type name (get_or t i no_entry) t
  unfolding got_at
  got_at-read_entry vt_user_ref name t i order = refl
  got_at-read_entry vt_user_define name t i order =
      got_kind-followed (get_or t i no_entry).kind t i order
  got_at-read_entry vt_user_global name t i order =
      got_kind-followed (get_or t i no_entry).kind t i order
  got_at-read_entry vt_user_local name t i order =
      got_kind-followed (get_or t i no_entry).kind t i order
  got_at-read_entry vt_user name t i order = got_kind-followed (get_or t i no_entry).kind t i order
  got_at-read_entry vt_sc name t i order = got_kind-followed (get_or t i no_entry).kind t i order
  got_at-read_entry vt_label name t i order = got_kind-followed (get_or t i no_entry).kind t i order

  got_found-or_behind :
      (type : VarType) (name : Text) (t : List Entry) (o : Option ℕ) (behind : Got)
      → InOrder t
      → got_found bsearch type name t o behind ≡ or_behind type name t (at_index t o) behind
  got_found-or_behind type name t none behind order = refl
  got_found-or_behind type name t (some i) behind order = got_at-read_entry type name t i order

  get_in-first_of :
      (scope : Option Text) (type : VarType) (name : Text) (t : List Entry) (behind : Got)
      (names : List (Option Text))
      → InOrder t
      → behind ≡ first_of type t names
      → get_in bsearch scope type name t behind ≡ first_of type t (in_scope scope name ∷ names)
  unfolding get_in
  get_in-first_of none type name t behind names order e = refl
  get_in-first_of (some scope) type name t behind names order e =
      got_found-or_behind type (scope ++ name) t (find bsearch (scope ++ name) t) behind order
      ∙ ap (λ o. or_behind type (scope ++ name) t o behind) (find-entry_of (scope ++ name) t order)
      ∙ ap (or_behind type (scope ++ name) t (entry_of (scope ++ name) t)) e

  outer-first_of :
      (p : Place) (name : Text) (type : VarType) (t : List Entry)
      → InOrder t
      → get_in bsearch
          (program_scope type p.program_name)
          type
          name
          t
          (get_in bsearch (program_scope type p.default_program_name) type name t (got 1 []))
        ≡ first_of type t (outer_names p type name)
  outer-first_of p name type t order =
      get_in-first_of (program_scope type p.program_name) type name t _ _ order (
        get_in-first_of (program_scope type p.default_program_name) type name t (got 1 []) [] order
          refl)

  label-first_of :
      (label : Text) (p : Place) (name : Text) (type : VarType) (t : List Entry)
      → InOrder t
      → get_label bsearch type p.program_name label name t (
          get_in bsearch
            (program_scope type p.program_name)
            type
            name
            t
            (get_in bsearch (program_scope type p.default_program_name) type name t (got 1 [])))
        ≡ first_of type t (names_from label p type name)
  label-first_of [] p name type t order = outer-first_of p name type t order
  label-first_of (c ∷ cs) p name type t order =
      get_in-first_of (label_scope type p.program_name (c ∷ cs)) type name t _ _ order
        (outer-first_of p name type t order)

  -- On a table in order, with a bsearch() that finds what is there, variable_get() reads the entry
  -- of the first name that is there: with the label of the place, with its program, with the default
  -- program. A reference is followed once, and the type of a reference gives the name instead.
  pub variable_get-first_of :
      (p : Place) (name : Text) (type : VarType) (t : List Entry)
      → InOrder t
      → variable_get bsearch p name type t ≡ first_of type t (names_from p.label p type name)
  unfolding variable_get
  variable_get-first_of p name type t order = label-first_of p.label p name type t order
