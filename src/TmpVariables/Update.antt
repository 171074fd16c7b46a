-- ===== src/TmpVariables/Update.antt =====
-- The update of an entry of the table.
use Prim.Native.Nat.{Ordering}
use mathlib.Core.Option.{some-ne-none, some-injective}
use sc_open.Prelude.{
  ℕ, zero, suc, ◌≡◌, ◌≢◌, refl, sym, ap, ◌∙◌, some, List, [], ◌∷◌, get_elem?, get_or, set, All,
}
use sc_open.TmpVariables.{Text, Variable, name_cmp, with_value}
use sc_open.TmpVariables.Order.{IsSorted}
use sc_open.TmpVariables.Lookup.{lookup, lookup_miss}
use sc_open.TmpVariables.Insert.{lookup-tail}

-- The update of the entry at an index.
unfoldable pub update : Text → List Variable → ℕ → Variable → List Variable
update value t i d = set t i (with_value (get_or t i d) value)

pub All-update {κ} :
    (P : Variable → Type κ) (value : Text) (t : List Variable) (i : ℕ) (d : Variable)
    → ((v : Variable) → P v → P (with_value v value))
    → All P t
    → All P (update value t i d)
unfolding update
All-update P value [] i d keep h = h
All-update P value (v ∷ vs) zero d keep h = (keep v h.0, h.1)
All-update P value (v ∷ vs) (suc i) d keep h = (h.0, All-update P value vs i d keep h.1)

pub update-IsSorted :
    (value : Text) (t : List Variable) (i : ℕ) (d : Variable)
    → IsSorted t
    → IsSorted (update value t i d)
unfolding update name_cmp
update-IsSorted value [] i d s = s
update-IsSorted value (v ∷ vs) zero d s = s
update-IsSorted value (v ∷ vs) (suc i) d s = (
  All-update (λ w. name_cmp v w ≡ Ordering.lt) value vs i d (λ w h. h) s.0,
  update-IsSorted value vs i d s.1,
)

pub update-lookup_other :
    (name value : Text) (t : List Variable) (i : ℕ) (d : Variable)
    → (get_or t i d).name ≢ name
    → lookup name (update value t i d) ≡ lookup name t
unfolding update
update-lookup_other name value [] i d ne = refl
update-lookup_other name value (v ∷ vs) zero d ne =
    lookup_miss name (with_value v value) vs ne ∙ sym (lookup_miss name v vs ne)
update-lookup_other name value (v ∷ vs) (suc i) d ne =
    lookup-tail name v (update value vs i d) vs (update-lookup_other name value vs i d ne)

pub update-length :
    (value : Text) (t : List Variable) (i : ℕ) (d v : Variable)
    → get_elem? t i ≡ some v
    → get_elem? (update value t i d) i ≡ some (with_value v value)
unfolding update
update-length value [] i d v e = absurd (some-ne-none v (sym e))
update-length value (u ∷ us) zero d v e = ap (λ w. some (with_value w value)) (some-injective u v e)
update-length value (u ∷ us) (suc i) d v e = update-length value us i d v e
