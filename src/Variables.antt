-- ===== src/Variables.antt =====
-- source/variables.c: the table of the variables of the programs, in the order of the hash of their
-- names. A name has the scope of its variable in front of it, a program or a label in a program. The
-- fields name, value, length and hash of an entry are a Variable of TmpVariables, whose get_hash()
-- and name_cmp() the source repeats here. A text is the bytes of a C string in front of its NUL.
pub mod Bases
pub mod Kept
pub mod Lookup
pub mod Scopes
pub mod Deleted
pub mod Local
mod Tests
use sc_open.Prelude.{
  ℕ, ◌-◌, Bool, true, false, Option, none, some, List, [], ◌∷◌, ◌++◌, length, map, get_or, set,
  take, drop, ltb, ◌==◌, if◌then◌else◌,
}
use sc_open.TmpVariables.{Text, Variable, key_of, new_variable, place, Search}
use sc_open.Tokens.{has_prefix}

pub data VarType : Type 0 where
  vt_user_define vt_user_global vt_user_local vt_user vt_user_ref vt_sc vt_label : VarType

-- var_prefix[]
unfoldable pub var_prefix : VarType → Text
var_prefix vt_sc = b'#' ∷ []
var_prefix vt_label = b'#' ∷ []
var_prefix _ = []

-- struct variable
pub record Entry : Type 0 where
  pub variable : Variable
  pub kind : VarType

-- get_program_name(), get_default_program_name() and label_get() of the place in the program, which
-- is empty outside of labels.
pub record Place : Type 0 where
  pub program_name : Text
  pub default_program_name : Text
  pub label : Text

-- The array tmp_name_prefix has 128 bytes.
unfoldable pub prefix_fits : Text → Option Text
prefix_fits t = if ltb (length t) 128 then some t else none

unfoldable pub program_scope : VarType → (program : Text) → Option Text
program_scope type program = prefix_fits (var_prefix type ++ b'(' ∷ (program ++ b')' ∷ []))

unfoldable pub label_scope : VarType → (program label : Text) → Option Text
label_scope type program label =
    prefix_fits (var_prefix type ++ b'(' ∷ (program ++ b'.' ∷ (label ++ b')' ∷ [])))

abbrev pub bases : List Entry → List Variable
bases t = map (λ e. e.variable) t

abbrev pub no_entry : Entry
no_entry = record { variable = key_of []; kind = vt_user }

abbrev pub value_at : List Entry → ℕ → Text
value_at t i = let v = (get_or t i no_entry).variable in take v.length v.value

-- A new value and its length; the type stays.
abbrev pub with_value : Text → Entry → Entry
with_value value e = record e {
  variable = record e.variable { value = value; length = length value };
}

unfoldable pub assign : Text → List Entry → ℕ → List Entry
assign value t i = set t i (with_value value (get_or t i no_entry))

unfoldable pub new_entry : (name value : Text) → VarType → Entry
new_entry name value type = record {
  variable = new_variable name value (length value);
  kind = type;
}

unfoldable pub add_entry : (name value : Text) → VarType → List Entry → List Entry
add_entry name value type t =
    let idx = place (key_of name) (bases t) in take idx t ++ new_entry name value type ∷ drop idx t

-- variable_put(): its table, the end of the process, or an access outside of an array or through
-- NULL.
pub data Put : Type 0 where
  done : List Entry → Put
  fatal out_of_bounds : Put

pub data Got : Type 0 where
  got : (iret : ℕ) → (value : Text) → Got
  out_of_bounds : Got

-- A length of 0 stands for that of the text.
unfoldable pub given : (value : Text) (length : ℕ) → Text
given value length = if length == 0 then value else take length value

-- bsearch() is of the C library.
module _ (bsearch : Search) where
  abbrev pub find : Text → List Entry → Option ℕ
  find name t = bsearch (bases t) (key_of name)

  abbrev pub referenced : Text → List Entry → Option ℕ → Put
  referenced value t none = Put.out_of_bounds
  referenced value t (some i) = done (assign value t i)

  -- UPDATE_IT, of a variable that is not a reference to be set; i is its index.
  abbrev pub update_kind : VarType → Text → List Entry → ℕ → Put
  update_kind vt_user_ref value t i = referenced value t (find (value_at t i) t)
  update_kind vt_user_define value t i = done t
  update_kind vt_label value t i = fatal
  update_kind _ value t i = done (assign value t i)

  unfoldable pub update : VarType → Text → List Entry → ℕ → Put
  update vt_user_ref value t i = done (assign value t i)
  update type value t i = update_kind (get_or t i no_entry).kind value t i

  unfoldable pub put_at : VarType → (name value : Text) → List Entry → Option ℕ → Put
  put_at type name value t none = done (add_entry name value type t)
  put_at type name value t (some i) = update type value t i

  -- The name with its scope, looked for and put.
  unfoldable pub put_in : Option Text → VarType → (name value : Text) → List Entry → Put
  put_in none type name value t = Put.out_of_bounds
  put_in (some scope) type name value t =
      put_at type (scope ++ name) value t (find (scope ++ name) t)

  abbrev pub put_found : VarType → (scoped value : Text) → List Entry → Option ℕ → Put → Put
  put_found type scoped value t (some i) program_level = update type value t i
  put_found vt_user_ref scoped value t none program_level =
      done (add_entry scoped value vt_user_ref t)
  put_found _ scoped value t none program_level = program_level

  -- Within a label first, where only a reference is added.
  abbrev pub put_label : Option Text → VarType → (name value : Text) → List Entry → Put → Put
  put_label none type name value t program_level = Put.out_of_bounds
  put_label (some scope) type name value t program_level =
      put_found type (scope ++ name) value t (find (scope ++ name) t) program_level

  abbrev pub put_first : Option Text → VarType → (name value : Text) → Put
  put_first none type name value = Put.out_of_bounds
  put_first (some scope) type name value = done (new_entry (scope ++ name) value type ∷ [])

  abbrev pub put_near : VarType → Place → (label : Text) → (name value : Text) → List Entry → Put
  put_near type p [] name value t = put_in (program_scope type p.program_name) type name value t
  put_near type p (c ∷ cs) name value t =
      put_label (label_scope type p.program_name (c ∷ cs)) type name value t
        (put_in (program_scope type p.program_name) type name value t)

  abbrev pub put_local : VarType → Place → (label : Text) → (name value : Text) → List Entry → Put
  put_local type p [] name value t = put_in (program_scope type p.program_name) type name value t
  put_local type p (c ∷ cs) name value t =
      put_in (label_scope type p.program_name (c ∷ cs)) type name value t

  abbrev pub put_some : VarType → Place → (name value : Text) → List Entry → Put
  put_some vt_user_global p name value t =
      put_in (program_scope vt_user_global p.default_program_name) vt_user_global name value t
  put_some vt_user_local p name value t = put_local vt_user_local p p.label name value t
  put_some type p name value t = put_near type p p.label name value t

  unfoldable pub variable_put :
      Place → (name value : Text) → (length : ℕ) → VarType → List Entry → Put
  variable_put p name value length type [] =
      put_first (program_scope type p.program_name) type name (given value length)
  variable_put p name value length type (e ∷ es) =
      put_some type p name (given value length) (e ∷ es)

  abbrev pub got_reference : List Entry → Option ℕ → Got
  got_reference t none = got 1 []
  got_reference t (some i) = got 0 (value_at t i)

  abbrev pub got_kind : VarType → List Entry → ℕ → Got
  got_kind vt_user_ref t i = got_reference t (find (value_at t i) t)
  got_kind _ t i = got 0 (value_at t i)

  -- A variable that is found; the type vt_user_ref asks for its name.
  unfoldable pub got_at : VarType → (name : Text) → List Entry → ℕ → Got
  got_at vt_user_ref name t i = got 0 name
  got_at type name t i = got_kind (get_or t i no_entry).kind t i

  abbrev pub got_found : VarType → (scoped : Text) → List Entry → Option ℕ → Got → Got
  got_found type scoped t none behind = behind
  got_found type scoped t (some i) behind = got_at type scoped t i

  unfoldable pub get_in : Option Text → VarType → (name : Text) → List Entry → Got → Got
  get_in none type name t behind = Got.out_of_bounds
  get_in (some scope) type name t behind =
      got_found type (scope ++ name) t (find (scope ++ name) t) behind

  abbrev pub get_label : VarType → (program label : Text) → (name : Text) → List Entry → Got → Got
  get_label type program [] name t behind = behind
  get_label type program (c ∷ cs) name t behind =
      get_in (label_scope type program (c ∷ cs)) type name t behind

  -- variable_get(): within the label, at the level of the program, and in the default program.
  unfoldable pub variable_get : Place → (name : Text) → VarType → List Entry → Got
  variable_get p name type t = get_label type p.program_name p.label name t (
      get_in (program_scope type p.program_name) type name t
        (get_in (program_scope type p.default_program_name) type name t (got 1 [])))

  -- An entry that is deleted keeps its place, its length and its type until the table is sorted.
  abbrev pub deleted : Entry → Entry
  deleted e = record e { variable = record e.variable { name = []; value = []; hash = 0 } }

  -- `name[strlen(name)-1] == '*'`
  unfoldable pub is_wild : Text → Bool
  is_wild [] = false
  is_wild (c ∷ []) = c == b'*'
  is_wild (c ∷ d ∷ cs) = is_wild (d ∷ cs)

  unfoldable pub delete_matching : (start : Text) → List Entry → List Entry
  delete_matching start [] = []
  delete_matching start (e ∷ es) =
      let rest = delete_matching start es in
      if has_prefix start e.variable.name then deleted e ∷ rest else e ∷ rest

  abbrev pub delete_at : List Entry → Option ℕ → List Entry
  delete_at t none = t
  delete_at t (some i) = set t i (deleted (get_or t i no_entry))

  -- variable_delete() of a name that is not empty, with qsort() of the C library.
  unfoldable pub variable_delete :
      (qsort : List Entry → List Entry) → Place → (name : Text) → List Entry → List Entry
  variable_delete qsort p name t =
      let full = p.program_name ++ name in
      qsort (
        if is_wild name
        then delete_matching (take (length full - 1) full) t
        else delete_at t (find full t))

-- variable_delete_all()
abbrev pub variable_delete_all : List Entry → List Entry
variable_delete_all t = []
