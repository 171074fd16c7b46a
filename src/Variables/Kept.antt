-- ===== src/Variables/Kept.antt =====
-- variable_put() keeps the order of the table.
use sc_open.Prelude.{ℕ, refl, sym, subst, Option, none, some, List, [], ◌∷◌, ◌++◌, length, get_or}
use sc_open.TmpVariables.{Text, key_of, new_variable, Search}
use sc_open.TmpVariables.Order.{Valid}
use sc_open.TmpVariables.Lookup.{Found, Finds, Found-lookup}
use sc_open.TmpVariables.Put.{New-names, insert-Puts}
use sc_open.Variables.{
  VarType, vt_user_define, vt_user_global, vt_user_local, vt_user, vt_user_ref, vt_sc, vt_label,
  Entry, Place, bases, no_entry, value_at, new_entry, add_entry, Put, given, program_scope,
  label_scope, find, referenced, update_kind, update, put_at, put_in, put_found, put_label,
  put_first, put_near, put_local, put_some, variable_put,
}
use sc_open.Variables.Bases.{bases-add_entry, InOrder, LeavesOrder, assign-InOrder}

module _ (bsearch : Search) (finds : Finds bsearch) where
  add_entry-InOrder :
      (name value : Text) (type : VarType) (t : List Entry)
      → InOrder t
      → Found (bases t) (key_of name) none
      → InOrder (add_entry name value type t)
  add_entry-InOrder name value type t valid missing =
      subst Valid (sym (bases-add_entry name value type t))
        (insert-Puts name value (length value) (bases t) valid
          (New-names name (bases t) valid.0 missing)
          (Found-lookup (bases t) name none valid missing)).0

  referenced-LeavesOrder :
      (value : Text) (t : List Entry) (o : Option ℕ)
      → InOrder t
      → LeavesOrder (referenced bsearch value t o)
  referenced-LeavesOrder value t none valid = tt
  referenced-LeavesOrder value t (some i) valid = assign-InOrder value t i valid

  update_kind-LeavesOrder :
      (kind : VarType) (value : Text) (t : List Entry) (i : ℕ)
      → InOrder t
      → LeavesOrder (update_kind bsearch kind value t i)
  update_kind-LeavesOrder vt_user_ref value t i valid =
      referenced-LeavesOrder value t (find bsearch (value_at t i) t) valid
  update_kind-LeavesOrder vt_user_define value t i valid = valid
  update_kind-LeavesOrder vt_label value t i valid = tt
  update_kind-LeavesOrder vt_user_global value t i valid = assign-InOrder value t i valid
  update_kind-LeavesOrder vt_user_local value t i valid = assign-InOrder value t i valid
  update_kind-LeavesOrder vt_user value t i valid = assign-InOrder value t i valid
  update_kind-LeavesOrder vt_sc value t i valid = assign-InOrder value t i valid

  update-LeavesOrder :
      (type : VarType) (value : Text) (t : List Entry) (i : ℕ)
      → InOrder t
      → LeavesOrder (update bsearch type value t i)
  unfolding update
  update-LeavesOrder vt_user_ref value t i valid = assign-InOrder value t i valid
  update-LeavesOrder vt_user_define value t i valid =
      update_kind-LeavesOrder (get_or t i no_entry).kind value t i valid
  update-LeavesOrder vt_user_global value t i valid =
      update_kind-LeavesOrder (get_or t i no_entry).kind value t i valid
  update-LeavesOrder vt_user_local value t i valid =
      update_kind-LeavesOrder (get_or t i no_entry).kind value t i valid
  update-LeavesOrder vt_user value t i valid =
      update_kind-LeavesOrder (get_or t i no_entry).kind value t i valid
  update-LeavesOrder vt_sc value t i valid =
      update_kind-LeavesOrder (get_or t i no_entry).kind value t i valid
  update-LeavesOrder vt_label value t i valid =
      update_kind-LeavesOrder (get_or t i no_entry).kind value t i valid

  put_at-LeavesOrder :
      (type : VarType) (name value : Text) (t : List Entry) (o : Option ℕ)
      → InOrder t
      → Found (bases t) (key_of name) o
      → LeavesOrder (put_at bsearch type name value t o)
  unfolding put_at
  put_at-LeavesOrder type name value t none valid missing =
      add_entry-InOrder name value type t valid missing
  put_at-LeavesOrder type name value t (some i) valid found =
      update-LeavesOrder type value t i valid

  put_in-LeavesOrder :
      (scope : Option Text) (type : VarType) (name value : Text) (t : List Entry)
      → InOrder t
      → LeavesOrder (put_in bsearch scope type name value t)
  unfolding put_in
  put_in-LeavesOrder none type name value t valid = tt
  put_in-LeavesOrder (some scope) type name value t valid =
      put_at-LeavesOrder type (scope ++ name) value t (find bsearch (scope ++ name) t) valid
        (finds (bases t) (key_of (scope ++ name)) valid.1)

  put_found-LeavesOrder :
      (type : VarType) (scoped value : Text) (t : List Entry) (o : Option ℕ) (program_level : Put)
      → InOrder t
      → Found (bases t) (key_of scoped) o
      → LeavesOrder program_level
      → LeavesOrder (put_found bsearch type scoped value t o program_level)
  put_found-LeavesOrder type scoped value t (some i) q valid found h =
      update-LeavesOrder type value t i valid
  put_found-LeavesOrder vt_user_ref scoped value t none q valid missing h =
      add_entry-InOrder scoped value vt_user_ref t valid missing
  put_found-LeavesOrder vt_user_define scoped value t none q valid missing h = h
  put_found-LeavesOrder vt_user_global scoped value t none q valid missing h = h
  put_found-LeavesOrder vt_user_local scoped value t none q valid missing h = h
  put_found-LeavesOrder vt_user scoped value t none q valid missing h = h
  put_found-LeavesOrder vt_sc scoped value t none q valid missing h = h
  put_found-LeavesOrder vt_label scoped value t none q valid missing h = h

  put_label-LeavesOrder :
      (scope : Option Text) (type : VarType) (name value : Text) (t : List Entry)
      (program_level : Put)
      → InOrder t
      → LeavesOrder program_level
      → LeavesOrder (put_label bsearch scope type name value t program_level)
  put_label-LeavesOrder none type name value t q valid h = tt
  put_label-LeavesOrder (some scope) type name value t q valid h =
      put_found-LeavesOrder type (scope ++ name) value t (find bsearch (scope ++ name) t) q valid
        (finds (bases t) (key_of (scope ++ name)) valid.1) h

  put_near-LeavesOrder :
      (type : VarType) (p : Place) (label name value : Text) (t : List Entry)
      → InOrder t
      → LeavesOrder (put_near bsearch type p label name value t)
  put_near-LeavesOrder type p [] name value t valid =
      put_in-LeavesOrder (program_scope type p.program_name) type name value t valid
  put_near-LeavesOrder type p (c ∷ cs) name value t valid =
      put_label-LeavesOrder (label_scope type p.program_name (c ∷ cs)) type name value t _ valid
        (put_in-LeavesOrder (program_scope type p.program_name) type name value t valid)

  put_local-LeavesOrder :
      (p : Place) (label name value : Text) (t : List Entry)
      → InOrder t
      → LeavesOrder (put_local bsearch vt_user_local p label name value t)
  put_local-LeavesOrder p [] name value t valid =
      put_in-LeavesOrder (program_scope vt_user_local p.program_name) vt_user_local name value t
        valid
  put_local-LeavesOrder p (c ∷ cs) name value t valid =
      put_in-LeavesOrder (label_scope vt_user_local p.program_name (c ∷ cs)) vt_user_local name
        value t valid

  put_some-LeavesOrder :
      (type : VarType) (p : Place) (name value : Text) (t : List Entry)
      → InOrder t
      → LeavesOrder (put_some bsearch type p name value t)
  put_some-LeavesOrder vt_user_global p name value t valid =
      put_in-LeavesOrder (program_scope vt_user_global p.default_program_name) vt_user_global name
        value t valid
  put_some-LeavesOrder vt_user_local p name value t valid =
      put_local-LeavesOrder p p.label name value t valid
  put_some-LeavesOrder vt_user_define p name value t valid =
      put_near-LeavesOrder vt_user_define p p.label name value t valid
  put_some-LeavesOrder vt_user p name value t valid =
      put_near-LeavesOrder vt_user p p.label name value t valid
  put_some-LeavesOrder vt_user_ref p name value t valid =
      put_near-LeavesOrder vt_user_ref p p.label name value t valid
  put_some-LeavesOrder vt_sc p name value t valid =
      put_near-LeavesOrder vt_sc p p.label name value t valid
  put_some-LeavesOrder vt_label p name value t valid =
      put_near-LeavesOrder vt_label p p.label name value t valid

  put_first-LeavesOrder :
      (scope : Option Text) (type : VarType) (name value : Text)
      → LeavesOrder (put_first bsearch scope type name value)
  unfolding new_entry new_variable
  put_first-LeavesOrder none type name value = tt
  put_first-LeavesOrder (some scope) type name value = ((refl, tt), (tt, tt))

  -- When bsearch() finds what is there, variable_put() keeps the table in the order of name_cmp(),
  -- without a name twice and with the hash of each name, whatever scope it puts the variable into.
  pub variable_put-InOrder :
      (p : Place) (name value : Text) (length : ℕ) (type : VarType) (t : List Entry)
      → InOrder t
      → LeavesOrder (variable_put bsearch p name value length type t)
  unfolding variable_put
  variable_put-InOrder p name value length type [] valid =
      put_first-LeavesOrder (program_scope type p.program_name) type name (given value length)
  variable_put-InOrder p name value length type (e ∷ es) valid =
      put_some-LeavesOrder type p name (given value length) (e ∷ es) valid
