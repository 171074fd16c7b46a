-- ===== src/TmpVariables/Put.antt =====
-- tmp_variable_put() keeps the order of the table, and sets one name.
use Prim.Native.Nat.{Ordering}
use sc_open.Prelude.{
  ℕ, ◌≡◌, ◌≢◌, refl, sym, ap, subst, ◌∙◌, Option, none, some, List, [], ◌∷◌, get_elem?, All, inl,
  inr, true, false, length, take, leb, if◌then◌else◌, Bool-cases, length-take, take_all, arith,
}
use sc_open.TmpVariables.{
  Text, Variable, strcmp, name_cmp, key_of, new_variable, with_value, Search, put_at,
  tmp_variable_put, tmp_variable_get, Got, got, behind_value, read_value,
}
use sc_open.TmpVariables.Order.{Hashed, Valid, name_cmp_same, name_cmp-eq, strcmp_refl, strcmp-eq}
use sc_open.TmpVariables.Lookup.{
  lookup, lookup_at, Found, Finds, Found-lookup, value_of, tmp_variable_get-lookup,
  get_or-get_elem?,
}
use sc_open.TmpVariables.Insert.{
  insert, place-insert, New, All-insert, insert-IsSorted, insert-lookup_other, insert-lookup_self,
}
use sc_open.TmpVariables.Update.{
  update, All-update, update-IsSorted, update-lookup_other, update-length,
}

-- What a put stores: a new entry, or the entry that is there with the new value and its old length.
abbrev pub stored : Text → Text → ℕ → Option Variable → Variable
stored name value n none = new_variable name value n
stored name value n (some v) = with_value v value

pub New-names :
    (name : Text) (t : List Variable)
    → All Hashed t
    → All (λ v. name_cmp (key_of name) v ≢ Ordering.eq) t
    → New name t
unfolding key_of
New-names name [] h a = tt
New-names name (v ∷ vs) h a =
    ((λ e. a.0 (name_cmp_same (key_of name) v refl h.0 (sym e))), New-names name vs h.1 a.1)

-- What one put does to a table, by what its search has found.
abbrev Puts : Text → Text → ℕ → List Variable → List Variable → Type 0
Puts name value n t u =
    Valid u
    × (lookup name u ≡ some (stored name value n (lookup name t)))
    × ((other : Text) → name ≢ other → lookup other u ≡ lookup other t)

pub insert-Puts :
    (name value : Text) (n : ℕ) (t : List Variable)
    → Valid t
    → New name t
    → lookup name t ≡ none
    → Puts name value n t (insert (new_variable name value n) t)
unfolding new_variable
insert-Puts name value n t valid new e =
    let a = new_variable name value n in
    (
      (All-insert Hashed a t refl valid.0, insert-IsSorted a t new valid.1),
      insert-lookup_self name a t refl new ∙ sym (ap (λ o. some (stored name value n o)) e),
      λ other ne. insert-lookup_other other a t ne,
    )

update-Puts :
    (name value : Text) (n : ℕ) (t : List Variable) (i : ℕ) (v : Variable)
    → Valid t
    → get_elem? t i ≡ some v
    → v.name ≡ name
    → Puts name value n t (update value t i (key_of name))
update-Puts name value n t i v valid e same =
    let d = key_of name in
    let kept : Valid (update value t i d) =
      (All-update Hashed value t i d (λ w h. h) valid.0, update-IsSorted value t i d valid.1) in
    (
      kept,
      lookup_at (update value t i d) name i (with_value v value) kept
            (update-length value t i d v e) same
          ∙ sym (ap (λ o. some (stored name value n o)) (lookup_at t name i v valid e same)),
      λ other ne.
          update-lookup_other other value t i d
            (λ h. ne (sym same ∙ sym (ap (λ w. w.name) (get_or-get_elem? t i v d e)) ∙ h)),
    )

put_at-Puts :
    (bsearch : Search) (name value : Text) (n : ℕ) (t : List Variable) (r : Option ℕ)
    → Valid t
    → Found t (key_of name) r
    → Puts name value n t (put_at bsearch name value n t r)
unfolding put_at
put_at-Puts bsearch name value n t none valid f =
    subst (Puts name value n t) (sym (place-insert name value n t)) (
      insert-Puts name value n t valid (New-names name t valid.0 f)
        (Found-lookup t name none valid f))
put_at-Puts bsearch name value n t (some i) valid (v, e, c) =
    unfold update key_of in
    update-Puts name value n t i v valid e (sym (name_cmp-eq (key_of name) v c))

tmp_variable_put-Puts :
    (bsearch : Search) (name value : Text) (n : ℕ) (t : List Variable)
    → Finds bsearch
    → Valid t
    → Puts name value n t (tmp_variable_put bsearch name value n t)
unfolding tmp_variable_put
tmp_variable_put-Puts bsearch name value n [] finds valid =
    unfold insert in insert-Puts name value n [] valid tt (unfold lookup in refl)
tmp_variable_put-Puts bsearch name value n (v ∷ vs) finds valid =
    put_at-Puts bsearch name value n (v ∷ vs) (bsearch (v ∷ vs) (key_of name)) valid
      (finds (v ∷ vs) (key_of name) valid.1)

-- tmp_variable_put() keeps the table valid: in strictly increasing order of name_cmp(), so no name
-- twice, each entry with the hash of its name.
pub tmp_variable_put-Valid :
    (bsearch : Search) (name value : Text) (n : ℕ) (t : List Variable)
    → Finds bsearch
    → Valid t
    → Valid (tmp_variable_put bsearch name value n t)
tmp_variable_put-Valid bsearch name value n t finds valid =
    (tmp_variable_put-Puts bsearch name value n t finds valid).0

-- What tmp_variable_get() of a name gives after a put.
abbrev pub read_of : (value : Text) → (length : ℕ) → Got
read_of value n = if leb n (length value) then got (take n value) else behind_value

abbrev pub length_of : ℕ → (there : Option Variable) → ℕ
length_of n none = n
length_of n (some v) = v.length

abbrev pub after_put :
    Ordering → (name value : Text) → ℕ → (there : Option Variable) → (before : Got) → Got
after_put Ordering.eq name value n there before = read_of value (length_of n there)
after_put Ordering.lt name value n there before = before
after_put Ordering.gt name value n there before = before

stored-read :
    (name value : Text) (n : ℕ) (there : Option Variable)
    → value_of (some (stored name value n there)) ≡ read_of value (length_of n there)
unfolding read_value new_variable
stored-read name value n none = elim (Bool-cases (leb n (length value))) [
  | inl fits ↦
      let again : leb n (length (take n value)) ≡ true = ground (arith, length-take n value) in
      rw (fits, again) (ap got (take_all _ _ (omega (arith, length-take n value))))
  | inr short ↦
      let again : leb n (length (take n value)) ≡ false = ground (arith, length-take n value) in
      rw (short, again)
]
stored-read name value n (some v) = refl

strcmp-ne : (xs ys : Text) → strcmp xs ys ≢ Ordering.eq → xs ≢ ys
strcmp-ne xs ys n e = n (subst (λ t. strcmp xs t ≡ Ordering.eq) e (strcmp_refl xs))

-- On a valid table, tmp_variable_get() of a name gives after a tmp_variable_put(): for the name that
-- was put, the new value cut to the length of the entry, which is that of the put for a new name and
-- the length of the first put for a name that was there, and where the new value is shorter than
-- that, a read behind it; for every other name, what it gave before.
pub tmp_variable_get-put :
    (bsearch : Search) (name other value : Text) (n : ℕ) (t : List Variable)
    → Finds bsearch
    → Valid t
    → tmp_variable_get bsearch other (tmp_variable_put bsearch name value n t)
      ≡ after_put
          (strcmp name other)
          name
          value
          n
          (lookup name t)
          (tmp_variable_get bsearch other t)
tmp_variable_get-put bsearch name other value n t finds valid =
    let u = tmp_variable_put bsearch name value n t in
    let (kept, found, others) = tmp_variable_put-Puts bsearch name value n t finds valid in
    tmp_variable_get-lookup bsearch other u finds kept
    ∙ go (strcmp name other) refl kept found others
  where
    go :
        (o : Ordering)
        → strcmp name other ≡ o
        → Valid (tmp_variable_put bsearch name value n t)
        → lookup name (tmp_variable_put bsearch name value n t)
          ≡ some (stored name value n (lookup name t))
        → ((m : Text) → name ≢ m → lookup m (tmp_variable_put bsearch name value n t) ≡ lookup m t)
        → value_of (lookup other (tmp_variable_put bsearch name value n t))
          ≡ after_put o name value n (lookup name t) (tmp_variable_get bsearch other t)
    go Ordering.eq e kept found others =
        ap (λ m. value_of (lookup m (tmp_variable_put bsearch name value n t)))
          (sym (strcmp-eq name other e))
        ∙ ap value_of found
        ∙ stored-read name value n (lookup name t)
    go Ordering.lt e kept found others =
        ap value_of (others other (strcmp-ne name other (λ q. cc)))
        ∙ sym (tmp_variable_get-lookup bsearch other t finds valid)
    go Ordering.gt e kept found others =
        ap value_of (others other (strcmp-ne name other (λ q. cc)))
        ∙ sym (tmp_variable_get-lookup bsearch other t finds valid)
