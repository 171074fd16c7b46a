-- ===== src/Program/Progress.antt =====
-- Every read goes forward within the program.
use sc_open.Prelude.{
  ℕ, zero, suc, ◌+◌, ◌-◌, ◌*◌, ◌%◌, ◌^◌, ◌<◌, ◌≤◌, ◌≡◌, ◌⊎◌, inl, inr, refl, subst, Option, none,
  some, List, [], ◌∷◌, length, drop, leb, arith, length-drop, Bool-cases,
}
use sc_open.Program.{
  Text, Token, Form, terminated, counted, bare, form_of, string_at, bytes_at, Decoded,
  decoded_string, decoded_bytes, decode_counted, decode_form, decode_program_token, State, advance,
  get_program_token_no_eval, tt_null_token,
}

-- A token takes one byte at least, and no more than there are.
abbrev Within : ℕ → Option Decoded → Type 0
Within n none = Unit
Within n (some (t, num)) = (0 < num) × (num ≤ n)

string_length :
    (bytes : List ℕ) → (text : Text) → string_at bytes ≡ some text → length text < length bytes
unfolding string_at
string_length [] text h = cc
string_length (zero ∷ bytes) text h = grind arith
string_length (suc c ∷ bytes) text h = go (string_at bytes) (string_length bytes) h
  where
    go :
        (r : Option Text)
        → ((text : Text) → r ≡ some text → length text < length bytes)
        → elim r [ none ↦ none | some cs ↦ some (suc c ∷ cs) ] ≡ some text
        → length text < length (suc c ∷ bytes)
    go none ih e = cc
    go (some cs) ih e = let one = ih cs refl in grind arith

decoded_string-Within :
    (kind n : ℕ) (r : Option Text)
    → ((text : Text) → r ≡ some text → length text < n)
    → Within (suc n) (decoded_string kind r)
decoded_string-Within kind n none h = tt
decoded_string-Within kind n (some text) h = let one = h text refl in (omega arith, omega arith)

bytes_at-Within :
    (kind n : ℕ) (bytes : List ℕ)
    → Within (5 + length bytes) (decoded_bytes kind n (bytes_at n bytes))
unfolding bytes_at
bytes_at-Within kind n bytes = elim (Bool-cases (leb n (length bytes))) [
  | inl h ↦ rw (bytes_at, h) (omega arith, ground arith)
  | inr h ↦ rw (bytes_at, h) tt
]

decode_form-Within :
    (form : Form) (kind : ℕ) (bytes : List ℕ)
    → Within (suc (length bytes)) (decode_form form kind bytes)
unfolding decode_form decode_counted
decode_form-Within terminated kind bytes =
    decoded_string-Within kind (length bytes) (string_at bytes) (string_length bytes)
decode_form-Within counted kind (a ∷ b ∷ c ∷ d ∷ bytes) =
    subst
      (λ n. Within n (
        decoded_bytes kind (a + 2 ^ 8 * b + 2 ^ 16 * c + 2 ^ 24 * d)
          (bytes_at (a + 2 ^ 8 * b + 2 ^ 16 * c + 2 ^ 24 * d) bytes)))
      (omega arith) (bytes_at-Within kind (a + 2 ^ 8 * b + 2 ^ 16 * c + 2 ^ 24 * d) bytes)
decode_form-Within counted kind [] = tt
decode_form-Within counted kind (a ∷ []) = tt
decode_form-Within counted kind (a ∷ b ∷ []) = tt
decode_form-Within counted kind (a ∷ b ∷ c ∷ []) = tt
decode_form-Within bare kind bytes = (omega arith, omega arith)

decode-Within : (bytes : List ℕ) → Within (length bytes) (decode_program_token bytes)
unfolding decode_program_token
decode-Within [] = tt
decode-Within (kind ∷ bytes) = decode_form-Within (form_of kind) kind bytes

-- A read goes forward, to the end of the program at most, or it is the null token there.
abbrev pub Forward : State → Option (Token × State) → Type 0
Forward s none = Unit
Forward s (some (t, u)) =
    (u.program ≡ s.program)
    × (s.program_idx ≤ u.program_idx)
    × (u.program_idx ≤ length s.program)
    × ((s.program_idx < u.program_idx) ⊎ (t.kind ≡ tt_null_token))

advance-Forward :
    (s : State) (d : Option Decoded)
    → length s.program < 2 ^ 32
    → s.program_idx < length s.program
    → Within (length s.program - s.program_idx) d
    → Forward s (advance s d)
advance-Forward s none small h w = tt
advance-Forward s (some (t, num)) small h w =
    let wraps : (s.program_idx + num) % 2 ^ 32 ≡ s.program_idx + num = omega arith in
    (refl, omega arith, omega arith, inl (omega arith))

pub get-Forward :
    (s : State)
    → length s.program < 2 ^ 32
    → s.program_idx ≤ length s.program
    → Forward s (get_program_token_no_eval s)
unfolding get_program_token_no_eval
get-Forward s small le = elim (Bool-cases (leb (length s.program) s.program_idx)) [
  | inl h ↦ rw (get_program_token_no_eval, h) (refl, omega arith, omega arith, inr refl)
  | inr h ↦
      rw (get_program_token_no_eval, h)
        (advance-Forward s (decode_program_token (drop s.program_idx s.program)) small
          (ground arith)
          (subst (λ n. Within n (decode_program_token (drop s.program_idx s.program)))
            (length-drop s.program_idx s.program) (decode-Within (drop s.program_idx s.program))))
]
