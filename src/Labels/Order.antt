-- ===== src/Labels/Order.antt =====
-- label_build_idx_table() ends, with a table in the order of the program.
use sc_open.Prelude.{
  ℕ, zero, suc, ◌+◌, ◌^◌, ◌<◌, ◌≤◌, ◌≡◌, ◌⊎◌, refl, sym, subst, ◌∙◌, Bool, true, false, ◌||◌,
  Option, none, some, List, [], ◌∷◌, ◌++◌, length, ltb, ◌==◌, if◌then◌else◌, arith,
}
use sc_open.Program.{
  Token, State, tt_null_token, tt_identifier, get_program_token_no_eval, set_program_token_idx,
}
use sc_open.Program.Progress.{Forward, get-Forward}
use sc_open.Labels.{
  Label, Open, label_put, Round, more, stop, outside, label_name, label_token, label_round, Built,
  built, broken, too_long, out_of_fuel, next_round, label_loop, label_build_idx_table, tt_after,
  tt_end, tt_label,
}

-- The labels follow each other between two indexes: each ends where the next starts or before.
abbrev pub Chain : ℕ → List Label → ℕ → Type 0
Chain lo [] hi = lo ≤ hi
Chain lo (l ∷ ls) hi = (lo ≤ l.lower) × (l.lower ≤ l.upper) × Chain l.upper ls hi

Chain-later : (lo hi later : ℕ) (ls : List Label) → Chain lo ls hi → hi ≤ later → Chain lo ls later
Chain-later lo hi later [] c h = omega arith
Chain-later lo hi later (l ∷ ls) (a, b, c) h = (a, b, Chain-later l.upper hi later ls c h)

Chain-append :
    (lo hi : ℕ) (ls : List Label) (l : Label)
    → Chain lo ls l.lower
    → l.lower ≤ l.upper
    → l.upper ≤ hi
    → Chain lo (ls ++ l ∷ []) hi
Chain-append lo hi [] l c h k = (c, h, k)
Chain-append lo hi (m ∷ ms) l (a, b, c) h k = (a, b, Chain-append m.upper hi ms l c h k)

-- The table up to the open label, which starts in front of an index.
abbrev Before : Open → List Label → ℕ → Type 0
Before none table idx = Chain 0 table idx
Before (some (name, lower)) table idx = Chain 0 table lower × (lower ≤ idx)

Before-later :
    (o : Open) (table : List Label) (idx later : ℕ)
    → Before o table idx
    → idx ≤ later
    → Before o table later
Before-later none table idx later b h = Chain-later 0 idx later table b h
Before-later (some (name, lower)) table idx later (c, l) h = (c, omega arith)

label_put-Chain :
    (o : Open) (table : List Label) (idx upper : ℕ)
    → Before o table idx
    → idx ≤ upper
    → Chain 0 (label_put o upper table) upper
unfolding label_put
label_put-Chain none table idx upper b h = Chain-later 0 idx upper table b h
label_put-Chain (some (name, lower)) table idx upper (c, l) h =
    Chain-append 0 upper table (record { name = name; lower = lower; upper = upper }) c
      (omega arith) (omega arith)

Before-Chain :
    (o : Open) (table : List Label) (idx upper : ℕ)
    → Before o table idx
    → idx ≤ upper
    → Chain 0 table upper
Before-Chain none table idx upper b h = Chain-later 0 idx upper table b h
Before-Chain (some (name, lower)) table idx upper (c, l) h =
    Chain-later 0 lower upper table c (omega arith)

-- The invariant of the loop over the program p.
abbrev Ready : List ℕ → State → Open → List Label → Type 0
Ready p s o table = (s.program ≡ p) × (s.program_idx ≤ length p) × Before o table s.program_idx

abbrev RoundFrom : List ℕ → ℕ → Round → Type 0
RoundFrom p idx (more s o table) = Ready p s o table × (idx < s.program_idx)
RoundFrom p idx (stop iret table) = Chain 0 table (length p)
RoundFrom p idx outside = Unit

-- What a read from a state within the program leads to.
abbrev Reads : List ℕ → ℕ → Option (Token × State) → Type 0
Reads p idx none = Unit
Reads p idx (some (t, u)) =
    (u.program ≡ p)
    × (idx ≤ u.program_idx)
    × (u.program_idx ≤ length p)
    × ((idx < u.program_idx) ⊎ (t.kind ≡ tt_null_token))

get-Reads :
    (p : List ℕ) (s : State)
    → length p < 2 ^ 32
    → s.program ≡ p
    → s.program_idx ≤ length p
    → Reads p s.program_idx (get_program_token_no_eval s)
get-Reads p s small same le =
    let small' = subst (λ q. length q < 2 ^ 32) (sym same) small in
    let le' = subst (λ q. s.program_idx ≤ length q) (sym same) le in
    turn (get_program_token_no_eval s) (get-Forward s small' le')
  where
    turn : (r : Option (Token × State)) → Forward s r → Reads p s.program_idx r
    turn none f = tt
    turn (some (t, u)) (a, b, c, d) = (a ∙ same, b, subst (λ q. u.program_idx ≤ length q) same c, d)

-- A property of both branches.
if-cases {κ} :
    (P : Round → Type κ) (b : Bool) (x y : Round)
    → (b ≡ true → P x)
    → (b ≡ false → P y)
    → P (if b then x else y)
if-cases P true x y h k = h refl
if-cases P false x y h k = k refl

label_name-RoundFrom :
    (p : List ℕ) (start idx : ℕ) (o : Open) (table : List Label) (r : Option (Token × State))
    → start < idx
    → Before o table idx
    → idx ≤ length p
    → Reads p idx r
    → RoundFrom p start (label_name r o table)
unfolding label_name
label_name-RoundFrom p start idx o table none less b le reads = tt
label_name-RoundFrom p start idx o table (some (t, u)) less b le (same, fore, end, moved) =
    if-cases (RoundFrom p start) (t.kind == tt_identifier)
      (more u (some (t.text, u.program_idx)) (label_put o u.program_idx table)) (stop 1 table)
      (λ h.
        ((same, end, (label_put-Chain o table idx u.program_idx b fore, omega arith)), omega arith))
      (λ h. Before-Chain o table idx (length p) b le)

label_token-RoundFrom :
    (p : List ℕ) (start : ℕ) (o : Open) (table : List Label) (t : Token) (u : State)
    → length p < 2 ^ 32
    → Before o table start
    → Reads p start (some (t, u))
    → RoundFrom p start (label_token t u o table)
unfolding label_token
label_token-RoundFrom p start o table t u small b (same, fore, end, moved) =
    let before = Before-later o table start u.program_idx b fore in
    let put = label_put-Chain o table start u.program_idx b fore in
    if-cases (RoundFrom p start) (t.kind == tt_after || t.kind == tt_label) _ _
      (λ h.
        label_name-RoundFrom p start u.program_idx o table (get_program_token_no_eval u)
          (ground (arith, moved, h)) before end (get-Reads p u small same end))
      (λ h.
        if-cases (RoundFrom p start) (t.kind == tt_end) _ _
          (λ e. ((same, end, put), ground (arith, moved, e)))
          (λ e.
            if-cases (RoundFrom p start) (t.kind == tt_null_token) _ _
              (λ n.
                Chain-later 0 u.program_idx (length p) (label_put o u.program_idx table) put end)
              (λ n. ((same, end, before), ground (arith, moved, n)))))

label_round-RoundFrom :
    (p : List ℕ) (start : ℕ) (o : Open) (table : List Label) (r : Option (Token × State))
    → length p < 2 ^ 32
    → Before o table start
    → Reads p start r
    → RoundFrom p start (label_round r o table)
unfolding label_round
label_round-RoundFrom p start o table none small b reads = tt
label_round-RoundFrom p start o table (some (t, u)) small b reads =
    label_token-RoundFrom p start o table t u small b reads

-- The loop has ended, with a table in order or at the end of a broken program.
abbrev pub InOrder : List ℕ → Built → Type 0
InOrder p (built iret table) = Chain 0 table (length p)
InOrder p broken = Unit
InOrder p too_long = ⊥
InOrder p out_of_fuel = ⊥

next_round-InOrder :
    (p : List ℕ) (start : ℕ) (r : Round) (f : State → Open → List Label → Built)
    → RoundFrom p start r
    → ((s : State) (o : Open) (table : List Label)
        → Ready p s o table
        → start < s.program_idx
        → InOrder p (f s o table))
    → InOrder p (next_round r f)
next_round-InOrder p start (more s o table) f (ready, less) h = h s o table ready less
next_round-InOrder p start (stop iret table) f chain h = chain
next_round-InOrder p start outside f none_left h = tt

label_loop-InOrder :
    (fuel : ℕ) (p : List ℕ) (s : State) (o : Open) (table : List Label)
    → length p < 2 ^ 32
    → Ready p s o table
    → length p < fuel + s.program_idx
    → InOrder p (label_loop fuel s o table)
unfolding label_loop
label_loop-InOrder zero p s o table small ready enough = absurd (omega (arith, ready.1))
label_loop-InOrder (suc fuel) p s o table small ready enough =
    next_round-InOrder p s.program_idx (label_round (get_program_token_no_eval s) o table)
      (label_loop fuel)
      (label_round-RoundFrom p s.program_idx o table (get_program_token_no_eval s) small ready.2
        (get-Reads p s small ready.0 ready.1))
      (λ u q t next less. label_loop-InOrder fuel p u q t small next (omega arith))

-- Over a program of fewer than 2 ^ 31 bytes, whatever they are, label_build_idx_table() ends: it
-- returns, or it reads behind a program that ends inside a token. The table that it returns,
-- whatever its return code, is in the order of the program: each label starts at or behind the end of the one in front
-- of it, ends at or behind its start, and lies within the program.
pub label_build_idx_table-InOrder :
    (s : State) → length s.program < 2 ^ 31 → InOrder s.program (label_build_idx_table s)
unfolding label_build_idx_table set_program_token_idx
label_build_idx_table-InOrder s small =
    let short : ltb (length s.program) (2 ^ 31) ≡ true = ground arith in
    rw short (
      label_loop-InOrder (suc (length s.program)) s.program (set_program_token_idx 0 s) none []
        (omega arith) (refl, omega arith, omega arith) (omega arith))
