-- ===== src/TmpVariables/Search.antt =====
-- A search through the table that does what bsearch() promises, for runs.
use Prim.Native.Nat.{Ordering}
use sc_open.Prelude.{ℕ, suc, ◌≡◌, refl, Option, none, some, List, [], ◌∷◌}
use sc_open.TmpVariables.{Variable, name_cmp}
use sc_open.TmpVariables.Lookup.{Found, Finds}

-- A search that keeps what bsearch() promises.
abbrev pub search_at : Ordering → Option ℕ → Option ℕ
search_at Ordering.eq r = some 0
search_at Ordering.lt none = none
search_at Ordering.lt (some i) = some (suc i)
search_at Ordering.gt none = none
search_at Ordering.gt (some i) = some (suc i)

unfoldable pub search_table : List Variable → Variable → Option ℕ
search_table [] k = none
search_table (v ∷ vs) k = search_at (name_cmp k v) (search_table vs k)

search_at-Found :
    (o : Ordering) (v k : Variable) (vs : List Variable) (r : Option ℕ)
    → name_cmp k v ≡ o
    → Found vs k r
    → Found (v ∷ vs) k (search_at o r)
search_at-Found Ordering.eq v k vs r e f = (v, refl, e)
search_at-Found Ordering.lt v k vs none e f = ((λ h. cc), f)
search_at-Found Ordering.lt v k vs (some i) e f = f
search_at-Found Ordering.gt v k vs none e f = ((λ h. cc), f)
search_at-Found Ordering.gt v k vs (some i) e f = f

search_table-Found : (t : List Variable) (k : Variable) → Found t k (search_table t k)
unfolding search_table
search_table-Found [] k = tt
search_table-Found (v ∷ vs) k =
    search_at-Found (name_cmp k v) v k vs (search_table vs k) refl (search_table-Found vs k)

pub search_table-Finds : Finds search_table
search_table-Finds t k sorted = search_table-Found t k
