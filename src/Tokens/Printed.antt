-- ===== src/Tokens/Printed.antt =====
-- The names that show_type() prints are the words that the types are read from.
use sc_open.Prelude.{
  ℕ, ◌-◌, ◌≡◌, ◌⊎◌, inl, inr, refl, sym, subst, ◌∙◌, Bool, true, false, ◌&&◌, ◌||◌, Option, none,
  some, [], ◌∷◌, map, leb, if◌then◌else◌, arith, Bool-cases,
}
use mathlib.Core.Option.{some-ne-none, some-injective}
use sc_open.Tokens.{Text, same_text, Pattern, exact, prefix, matches, Words, find, upper_token}
use sc_open.Tokens.Kinds.{TokenType, tt_unknown, tt_esc, tt_x, is_function}
use sc_open.Tokens.Functions.{function_branches, get_token_type_function}
use sc_open.Tokens.Keywords.{keyword_branches, get_token_type}
use sc_open.Tokens.Names.{show_type}
use sc_open.Tokens.Flat.{
  words_of, function_words, keyword_words, search_all, same_text-eq, both,
  get_token_type-search_all,
}

-- A name in upper case.
unfoldable pub ascii_upper : ℕ → ℕ
ascii_upper c = if leb b'a' c && leb c b'z' then c - 32 else c

abbrev pub upper_name : Option Text → Text
upper_name none = []
upper_name (some name) = map ascii_upper name

-- The two types of a backslash and of the commands of a library have names of their own.
abbrev own_name : TokenType → Bool
own_name tt_esc = true
own_name tt_x = true
own_name _ = false

abbrev same_bool : Bool → Bool → Bool
same_bool true b = b
same_bool false true = false
same_bool false false = true

-- The word of an entry is the name of its type.
abbrev named_entry : Pattern → TokenType → Bool
named_entry (exact w) kind = own_name kind || same_text w (upper_name (show_type kind))
named_entry (prefix w) kind = own_name kind

-- So are all, and all are functions or none is.
unfoldable named : Bool → Words → Bool
named f [] = true
named f ((p, kind) ∷ ws) = (same_bool (is_function kind) f && named_entry p kind) && named f ws

abbrev pub Printed : Text → TokenType → Type 0
Printed token kind = (own_name kind ≡ true) ⊎ (token ≡ upper_name (show_type kind))

entry-Printed :
    (p : Pattern) (kind : TokenType) (token : Text)
    → named_entry p kind ≡ true
    → matches p token ≡ true
    → Printed token kind
unfolding matches
entry-Printed (exact w) kind token h m = elim (Bool-cases (own_name kind)) [
  | inl o ↦ inl o
  | inr o ↦
      let same : same_text w (upper_name (show_type kind)) ≡ true = ground (arith, h, o) in
      inr (same_text-eq token w m ∙ same_text-eq w (upper_name (show_type kind)) same)
]
entry-Printed (prefix w) kind token h m = inl h

same_bool-eq : (a b : Bool) → same_bool a b ≡ true → a ≡ b
same_bool-eq true b h = sym h
same_bool-eq false true h = cc
same_bool-eq false false h = refl

-- What a search can return: TT_UNKNOWN, or a function or none of them, of which the token is the
-- printed name in upper case, but for TT_ESC and TT_X.
abbrev pub Outcome : Bool → Text → TokenType → Type 0
Outcome f token kind = (kind ≡ tt_unknown) ⊎ ((is_function kind ≡ f) × Printed token kind)

find-Outcome :
    (f : Bool) (ws : Words) (token : Text) → named f ws ≡ true → Outcome f token (find ws token)
unfolding find named
find-Outcome f [] token h = inl refl
find-Outcome f ((p, kind) ∷ ws) token h =
    let (here, later) =
      both (same_bool (is_function kind) f && named_entry p kind) (named f ws) h in
    let (same, name) = both (same_bool (is_function kind) f) (named_entry p kind) here in
    elim (Bool-cases (matches p token)) [
      | inl m ↦
          subst (λ b. Outcome f token (if b then kind else find ws token)) (sym m)
            (inr (same_bool-eq (is_function kind) f same, entry-Printed p kind token name m))
      | inr m ↦
          subst (λ b. Outcome f token (if b then kind else find ws token)) (sym m)
            (find-Outcome f ws token later)
    ]

functions-named : named true function_words ≡ true
unfolding named function_words function_branches words_of same_text show_type ascii_upper
    is_function
functions-named = refl

keywords-named : named false keyword_words ≡ true
unfolding named keyword_words keyword_branches words_of same_text show_type ascii_upper is_function
keywords-named = refl

search_all-Outcome :
    (f : Bool) (ws : Words) (r : Option Text) (token : Text) (kind : TokenType)
    → named f ws ≡ true
    → r ≡ some token
    → search_all ws r ≡ some kind
    → Outcome f token kind
search_all-Outcome f ws none token kind h e k = absurd (some-ne-none token (sym e))
search_all-Outcome f ws (some u) token kind h e k =
    let same = some-injective u token e in
    subst (λ v. Outcome f v kind) same
      (subst (Outcome f u) (some-injective (find ws u) kind k) (find-Outcome f ws u h))

-- get_token_type_function() or get_token_type().
abbrev pub get_type : Bool → (toupper : ℕ → ℕ) → Text → Option TokenType
get_type true toupper t = get_token_type_function toupper t
get_type false toupper t = get_token_type toupper t

-- A type that get_token_type() or get_token_type_function() finds for a token is TT_UNKNOWN, or it
-- is a type of a function exactly if get_token_type_function() has found it, and the name that
-- show_type() prints for it is, in upper case, the token as toupper() makes it; TT_ESC and TT_X
-- alone may be printed otherwise.
pub show_type-get_type :
    (f : Bool) (toupper : ℕ → ℕ) (t token : Text) (kind : TokenType)
    → upper_token toupper t ≡ some token
    → get_type f toupper t ≡ some kind
    → Outcome f token kind
show_type-get_type true toupper t token kind h e =
    search_all-Outcome true function_words (upper_token toupper t) token kind functions-named h
      (sym (get_token_type-search_all toupper t).1 ∙ e)
show_type-get_type false toupper t token kind h e =
    search_all-Outcome false keyword_words (upper_token toupper t) token kind keywords-named h
      (sym (get_token_type-search_all toupper t).0 ∙ e)
