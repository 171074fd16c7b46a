-- ===== src/Program/Reading.antt =====
-- The tokens that read_it() has stored are the tokens that the program is read as.
use sc_open.Prelude.{
  ℕ, zero, suc, ◌+◌, ◌%◌, ◌^◌, ◌<◌, ◌≡◌, ◌≢◌, refl, sym, ap, ◌∙◌, true, false, some, List, [], ◌∷◌,
  ◌++◌, length, leb, arith, append_assoc, length-append, take-append, drop-append, All,
}
use sc_open.Program.{
  Text, Token, Form, terminated, counted, bare, form_of, int_bytes, saved_text, save_token,
  save_all, string_at, bytes_at, decoded_string, decoded_bytes, decode_counted, decode_form,
  decode_program_token, State, get_program_token_no_eval,
}

-- What a token must be to be stored without loss: by its form, a text without a NUL, a text that
-- an int can count, or no text.
abbrev FormFits : Form → Text → Type 0
FormFits terminated text = All (λ c. c ≢ 0) text
FormFits counted text = length text < 2 ^ 32
FormFits bare text = text ≡ []

abbrev pub Fits : Token → Type 0
Fits t = FormFits (form_of t.kind) t.text

string_at-text :
    (text : Text) (rest : List ℕ) → All (λ c. c ≢ 0) text → string_at (text ++ 0 ∷ rest) ≡ some text
unfolding string_at
string_at-text [] rest h = refl
string_at-text (zero ∷ cs) rest h = absurd (h.0 refl)
string_at-text (suc c ∷ cs) rest h = rw (string_at, string_at-text cs rest h.1) refl

bytes_at-text : (text : Text) (rest : List ℕ) → bytes_at (length text) (text ++ rest) ≡ some text
unfolding bytes_at
bytes_at-text text rest =
    let fits : leb (length text) (length (text ++ rest)) ≡ true =
      ground (arith, length-append text rest) in
    rw (bytes_at, fits, take-append text rest (length text) refl) refl

decode_counted-int :
    (kind n : ℕ) (bytes : List ℕ)
    → n < 2 ^ 32
    → decode_counted kind (int_bytes n ++ bytes) ≡ decoded_bytes kind n (bytes_at n bytes)
unfolding decode_counted int_bytes
decode_counted-int kind n bytes h =
    ap (λ len. decoded_bytes kind len (bytes_at len bytes)) (omega arith)

decode_form-saved :
    (form : Form) (kind : ℕ) (text : Text) (rest : List ℕ)
    → FormFits form text
    → decode_form form kind (saved_text form text ++ rest)
      ≡ some (record { kind = kind; text = text }, 1 + length (saved_text form text))
unfolding decode_form saved_text decode_counted int_bytes
decode_form-saved terminated kind text rest h =
    ap (λ bytes. decoded_string kind (string_at bytes)) (append_assoc text (0 ∷ []) rest)
    ∙ ap (decoded_string kind) (string_at-text text rest h)
    ∙ ap (λ n. some (record { kind = kind; text = text }, 1 + n))
        (sym (length-append text (0 ∷ [])))
decode_form-saved counted kind text rest h =
    let len : ℕ = length text in
    let wraps : len % 2 ^ 32 ≡ len = omega arith in
    ap (λ n. decode_counted kind (int_bytes n ++ (text ++ rest))) wraps
    ∙ decode_counted-int kind len (text ++ rest) h
    ∙ ap (decoded_bytes kind len) (bytes_at-text text rest)
    ∙ ap (λ n. some (record { kind = kind; text = text }, n)) (omega arith)
decode_form-saved bare kind text rest h =
    ap (λ t. some (record { kind = kind; text = t }, 1)) (sym h)

decode-save :
    (t : Token) (rest : List ℕ)
    → Fits t
    → decode_program_token (save_token t ++ rest) ≡ some (t, length (save_token t))
unfolding decode_program_token save_token
decode-save t rest h =
    decode_form-saved (form_of t.kind) t.kind t.text rest h ∙ ap (λ n. some (t, n)) (omega arith)

save_token-length : (t : Token) → 0 < length (save_token t)
unfolding save_token
save_token-length t = omega arith

-- The state of a reader at the border of two parts of the program.
abbrev pub at : (before after : List Token) (saved : ℕ) → State
at before after saved = record {
  program = save_all before ++ save_all after;
  program_idx = length (save_all before);
  saved_program_idx = saved;
}

pub get-save :
    (before after : List Token) (t : Token) (saved : ℕ)
    → Fits t
    → length (save_all before ++ save_all (t ∷ after)) < 2 ^ 32
    → get_program_token_no_eval (at before (t ∷ after) saved)
      ≡ some (
        t,
        record {
          program = save_all before ++ save_all (t ∷ after);
          program_idx = length (save_all before) + length (save_token t);
          saved_program_idx = length (save_all before);
        },
      )
unfolding get_program_token_no_eval save_all
get-save before after t saved h bound =
    let all = length-append (save_all before) (save_token t ++ save_all after) in
    let tail = length-append (save_token t) (save_all after) in
    let positive = save_token-length t in
    let within : leb (length (save_all before ++ (save_token t ++ save_all after)))
          (length (save_all before))
        ≡ false =
      ground arith in
    let wraps : (length (save_all before) + length (save_token t)) % 2 ^ 32
        ≡ length (save_all before) + length (save_token t) =
      omega arith in
    rw
      (
        within,
        drop-append (save_all before) (save_token t ++ save_all after) (length (save_all before))
            refl,
        decode-save t (save_all after) h,
        wraps,
      )
      refl
