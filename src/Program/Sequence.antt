-- ===== src/Program/Sequence.antt =====
-- The program that is read is the program that was stored.
use sc_open.Prelude.{
  ℕ, zero, suc, ◌+◌, ◌^◌, ◌<◌, ◌≡◌, refl, sym, ap, subst, ◌∙◌, Bool, true, false, Option, none,
  some, List, [], ◌∷◌, ◌++◌, length, drop, replicate, leb, if◌then◌else◌, arith, append_assoc,
  append-nil, length-append, All,
}
use sc_open.Program.{
  Token, save_token, save_all, Decoded, decode_program_token, State, null_token, advance,
  get_program_token_no_eval, put_program_token,
}
use sc_open.Program.Reading.{Fits, at, get-save}

-- The tokens of so many reads.
abbrev cons_read : Token → Option (List Token) → Option (List Token)
cons_read t none = none
cons_read t (some ts) = some (t ∷ ts)

abbrev then_read : Option (Token × State) → (State → Option (List Token)) → Option (List Token)
then_read none f = none
then_read (some (t, s)) f = cons_read t (f s)

unfoldable pub read_tokens : ℕ → State → Option (List Token)
read_tokens zero s = some []
read_tokens (suc n) s = then_read (get_program_token_no_eval s) (read_tokens n)

read_tokens-some :
    (n : ℕ) (s u : State) (t : Token) (ts : List Token)
    → get_program_token_no_eval s ≡ some (t, u)
    → read_tokens n u ≡ some ts
    → read_tokens (suc n) s ≡ some (t ∷ ts)
unfolding read_tokens
read_tokens-some n s u t ts e f = ap (λ r. then_read r (read_tokens n)) e ∙ ap (cons_read t) f

save_all-append :
    (before after : List Token) → save_all (before ++ after) ≡ save_all before ++ save_all after
unfolding save_all
save_all-append [] after = refl
save_all-append (t ∷ ts) after =
    ap (λ b. save_token t ++ b) (save_all-append ts after)
    ∙ sym (append_assoc (save_token t) (save_all ts) (save_all after))

-- The state behind one more token.
at-next :
    (before after : List Token) (t : Token) (saved : ℕ)
    → record {
      program = save_all before ++ save_all (t ∷ after);
      program_idx = length (save_all before) + length (save_token t);
      saved_program_idx = saved;
    }
      ≡ at (before ++ t ∷ []) after saved
unfolding save_all
at-next before after t saved =
    let one : save_all (before ++ t ∷ []) ≡ save_all before ++ save_token t =
      save_all-append before (t ∷ [])
      ∙ ap (λ b. save_all before ++ b) (append-nil (save_token t)) in
    let bytes : save_all before ++ (save_token t ++ save_all after)
        ≡ save_all (before ++ t ∷ []) ++ save_all after =
      sym (append_assoc (save_all before) (save_token t) (save_all after))
      ∙ ap (λ b. b ++ save_all after) (sym one) in
    let idx : length (save_all before) + length (save_token t)
        ≡ length (save_all (before ++ t ∷ [])) =
      sym (ap length one ∙ length-append (save_all before) (save_token t)) in
    λ i. record { program = bytes i; program_idx = idx i; saved_program_idx = saved }

at_end :
    (before : List Token) (saved : ℕ)
    → get_program_token_no_eval (at before [] saved)
      ≡ some (null_token, at before [] (length (save_all before)))
unfolding get_program_token_no_eval save_all
at_end before saved =
    let over : leb (length (save_all before ++ [])) (length (save_all before)) ≡ true =
      ground (arith, length-append {A = ℕ} (save_all before) []) in
    rw over refl

read-end :
    (k : ℕ) (before : List Token) (saved : ℕ)
    → read_tokens k (at before [] saved) ≡ some (replicate k null_token)
unfolding read_tokens
read-end zero before saved = refl
read-end (suc k) before saved =
    read_tokens-some k (at before [] saved) (at before [] (length (save_all before))) null_token
      (replicate k null_token) (at_end before saved) (read-end k before (length (save_all before)))

read-at :
    (after before : List Token) (k saved : ℕ)
    → All Fits after
    → length (save_all before ++ save_all after) < 2 ^ 32
    → read_tokens (length after + k) (at before after saved)
      ≡ some (after ++ replicate k null_token)
unfolding read_tokens
read-at [] before k saved h bound =
    subst (λ n. read_tokens n (at before [] saved) ≡ some (replicate k null_token)) (omega arith)
      (read-end k before saved)
read-at (t ∷ ts) before k saved h bound =
    let next = at-next before ts t (length (save_all before)) in
    let rest =
      read-at ts (before ++ t ∷ []) k (length (save_all before)) h.1
        (subst (λ s. length s.program < 2 ^ 32) next bound) in
    let count : suc (length ts + k) ≡ length (t ∷ ts) + k = omega arith in
    subst
      (λ n. read_tokens n (at before (t ∷ ts) saved) ≡ some (t ∷ (ts ++ replicate k null_token)))
      count
      (read_tokens-some (length ts + k) (at before (t ∷ ts) saved)
        (at (before ++ t ∷ []) ts (length (save_all before))) t (ts ++ replicate k null_token)
        (get-save before ts t saved h.0 bound ∙ ap (λ u. some (t, u)) next) rest)

-- A program of tokens that fit their form, of fewer than 2 ^ 32 bytes, is read from its start as
-- these tokens, in their order, and every read behind them gives the null token.
pub read_tokens-save_all :
    (ts : List Token) (k saved : ℕ)
    → All Fits ts
    → length (save_all ts) < 2 ^ 32
    → read_tokens
        (length ts + k)
        (record { program = save_all ts; program_idx = 0; saved_program_idx = saved })
      ≡ some (ts ++ replicate k null_token)
unfolding save_all
read_tokens-save_all ts k saved h bound = read-at ts [] k saved h bound

-- What a read keeps: the program, and where it started.
abbrev Keeps : State → Option (Token × State) → Type 0
Keeps s none = Unit
Keeps s (some (t, u)) = (u.program ≡ s.program) × (u.saved_program_idx ≡ s.program_idx)

advance-Keeps : (s : State) (d : Option Decoded) → Keeps s (advance s d)
advance-Keeps s none = tt
advance-Keeps s (some (t, n)) = (refl, refl)

get-Keeps : (s : State) → Keeps s (get_program_token_no_eval s)
unfolding get_program_token_no_eval
get-Keeps s = choose (leb (length s.program) s.program_idx)
  where
    choose :
        (b : Bool)
        → Keeps s (
            if b
            then some (null_token, record s { saved_program_idx = s.program_idx })
            else advance s (decode_program_token (drop s.program_idx s.program)))
    choose true = (refl, refl)
    choose false = advance-Keeps s (decode_program_token (drop s.program_idx s.program))

-- The start of the last read does not matter for the next one.
advance_from :
    (s : State) (saved : ℕ) (d : Option Decoded)
    → advance (record s { saved_program_idx = saved }) d ≡ advance s d
advance_from s saved none = refl
advance_from s saved (some (t, n)) = refl

get_from :
    (s : State) (saved : ℕ)
    → get_program_token_no_eval (record s { saved_program_idx = saved })
      ≡ get_program_token_no_eval s
unfolding get_program_token_no_eval
get_from s saved =
    ap
      (λ r.
        if leb (length s.program) s.program_idx
        then some (null_token, record s { saved_program_idx = s.program_idx })
        else r)
      (advance_from s saved (decode_program_token (drop s.program_idx s.program)))

-- A token that is put back is read again, and the state is then the one behind the first read.
pub get-put-get :
    (s u : State) (t : Token)
    → get_program_token_no_eval s ≡ some (t, u)
    → get_program_token_no_eval (put_program_token u) ≡ some (t, u)
unfolding put_program_token
get-put-get s u t h =
    let (same, start) = subst (Keeps s) h (get-Keeps s) in
    let back : put_program_token u ≡ record s { saved_program_idx = u.saved_program_idx } = λ i.
      record { program = same i; program_idx = start i; saved_program_idx = u.saved_program_idx } in
    ap get_program_token_no_eval back ∙ get_from s u.saved_program_idx ∙ h
