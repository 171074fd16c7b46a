-- ===== src/Labels/Lookup.antt =====
-- label_get() on the table of a program.
use Prim.Native.Nat.{Ordering}
use mathlib.Core.Option.{some-ne-none, some-injective}
use sc_open.Prelude.{
  ℕ, zero, suc, ◌^◌, ◌<◌, ◌≤◌, ◌≡◌, ◌≢◌, ◌⊎◌, inl, inr, refl, sym, ap, subst, Option, none, some,
  List, [], ◌∷◌, length, ltb, Bool-cases, get_elem?, get_or, All, arith,
}
use sc_open.Program.{State, Text}
use sc_open.Labels.{Label, built, label_build_idx_table, idx_cmp, Search, label_found, label_get}
use sc_open.Labels.Order.{Chain, InOrder, label_build_idx_table-InOrder}

-- The table is in the order of the comparison with an index.
abbrev pub Ascending : ℕ → List Label → Type 0
Ascending k [] = Unit
Ascending k (l ∷ ls) =
    All
      (λ m.
        (idx_cmp k l ≡ Ordering.lt → idx_cmp k m ≡ Ordering.lt)
        × (idx_cmp k m ≡ Ordering.gt → idx_cmp k l ≡ Ordering.gt))
      ls
    × Ascending k ls

abbrev pub Found : List Label → ℕ → Option ℕ → Type 0
Found t k none = All (λ l. idx_cmp k l ≢ Ordering.eq) t
Found t k (some i) = (l : Label) × (get_elem? t i ≡ some l) × (idx_cmp k l ≡ Ordering.eq)

-- What bsearch() promises.
abbrev pub Finds : Search → Type 0
Finds bsearch = (t : List Label) (k : ℕ) → Ascending k t → Found t k (bsearch t k)

later-cmp :
    (k lo hi : ℕ) (l : Label) (ls : List Label)
    → l.lower ≤ l.upper
    → l.upper ≤ lo
    → Chain lo ls hi
    → All
        (λ m.
          (idx_cmp k l ≡ Ordering.lt → idx_cmp k m ≡ Ordering.lt)
          × (idx_cmp k m ≡ Ordering.gt → idx_cmp k l ≡ Ordering.gt))
        ls
unfolding idx_cmp
later-cmp k lo hi l [] h e c = tt
later-cmp k lo hi l (m ∷ ms) h e (a, b, c) = (
  ((λ q. ground (arith, q)), λ q. ground (arith, q)),
  later-cmp k m.upper hi l ms h (omega arith) c,
)

Chain-Ascending : (k lo hi : ℕ) (ls : List Label) → Chain lo ls hi → Ascending k ls
Chain-Ascending k lo hi [] c = tt
Chain-Ascending k lo hi (l ∷ ls) (a, b, c) =
    (later-cmp k l.upper hi l ls b (omega arith) c, Chain-Ascending k l.upper hi ls c)

-- What label_get() is for: the name of a label that the index lies in, its ends included, or the
-- empty text where it lies in none.
abbrev pub LabelOf : ℕ → List Label → Text → Type 0
LabelOf idx table name =
    ((i : ℕ) × (l : Label) × (get_elem? table i ≡ some l)
      × (l.lower ≤ idx)
      × (idx ≤ l.upper)
      × (name ≡ l.name))
    ⊎ ((name ≡ []) × All (λ l. (idx < l.lower) ⊎ (l.upper < idx)) table)

cmp_eq : (k : ℕ) (l : Label) → idx_cmp k l ≡ Ordering.eq → (l.lower ≤ k) × (k ≤ l.upper)
unfolding idx_cmp
cmp_eq k l e = (ground arith, ground arith)

cmp_ne : (k : ℕ) (l : Label) → idx_cmp k l ≢ Ordering.eq → (k < l.lower) ⊎ (l.upper < k)
unfolding idx_cmp
cmp_ne k l n = ground (arith, n)

none_in :
    (k : ℕ) (t : List Label)
    → All (λ l. idx_cmp k l ≢ Ordering.eq) t
    → All (λ l. (k < l.lower) ⊎ (l.upper < k)) t
none_in k [] a = tt
none_in k (l ∷ ls) (n, a) = (cmp_ne k l n, none_in k ls a)

get_or_at : (t : List Label) (i : ℕ) (l d : Label) → get_elem? t i ≡ some l → get_or t i d ≡ l
get_or_at [] i l d e = absurd (some-ne-none l (sym e))
get_or_at (m ∷ ms) zero l d e = some-injective m l e
get_or_at (m ∷ ms) (suc i) l d e = get_or_at ms i l d e

Found-LabelOf :
    (t : List Label) (k : ℕ) (r : Option ℕ) → Found t k r → LabelOf k t (label_found t r)
Found-LabelOf t k none f = inr (refl, none_in k t f)
Found-LabelOf t k (some i) (l, e, q) =
    let (low, high) = cmp_eq k l q in
    inl (i, l, e, low, high, ap (λ m. m.name) (get_or_at t i l _ e))

none_behind :
    (k lo hi : ℕ) (t : List Label)
    → Chain lo t hi
    → hi < k
    → (lo < k) × All (λ l. (k < l.lower) ⊎ (l.upper < k)) t
none_behind k lo hi [] c h = (omega arith, tt)
none_behind k lo hi (l ∷ ls) (a, b, c) h =
    let (before, rest) = none_behind k l.upper hi ls c h in (omega arith, (inr before, rest))

label_get-LabelOf :
    (bsearch : Search) (idx lo hi : ℕ) (table : List Label)
    → Finds bsearch
    → hi < 2 ^ 31
    → Chain lo table hi
    → LabelOf idx table (label_get bsearch idx table)
unfolding label_get
label_get-LabelOf bsearch idx lo hi [] finds small c = inr (refl, tt)
label_get-LabelOf bsearch idx lo hi (l ∷ ls) finds small c = elim (Bool-cases (ltb idx (2 ^ 31))) [
  | inl int ↦ rw int (
      Found-LabelOf (l ∷ ls) idx (bsearch (l ∷ ls) idx)
        (finds (l ∷ ls) idx (Chain-Ascending idx lo hi (l ∷ ls) c)))
  | inr large ↦
      let past : hi < idx = ground arith in
      rw large (inr (refl, (none_behind idx lo hi (l ∷ ls) c past).1))
]

-- On the table that label_build_idx_table() makes of a program of fewer than 2 ^ 31 bytes,
-- label_get() of every index returns the name of a label that the index lies in, both its ends
-- included, and the empty text exactly where the index lies in no label or in one with no name.
pub label_get-build :
    (bsearch : Search) (s : State) (iret idx : ℕ) (table : List Label)
    → Finds bsearch
    → length s.program < 2 ^ 31
    → label_build_idx_table s ≡ built iret table
    → LabelOf idx table (label_get bsearch idx table)
label_get-build bsearch s iret idx table finds small e =
    label_get-LabelOf bsearch idx 0 (length s.program) table finds small
      (subst (InOrder s.program) e (label_build_idx_table-InOrder s small))
