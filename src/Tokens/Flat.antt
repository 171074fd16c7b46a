-- ===== src/Tokens/Flat.antt =====
-- The branches on the first byte find what one search through all words finds.
use sc_open.Prelude.{
  ℕ, ◌≡◌, ◌≢◌, inl, inr, refl, sym, ap, subst, ◌∙◌, Bool, true, false, ◌&&◌, not, Option, none,
  some, List, [], ◌∷◌, ◌++◌, ◌==◌, arith, Bool-cases,
}
use sc_open.Tokens.{
  Text, same_text, has_prefix, Pattern, exact, prefix, matches, Words, find, Branch, group, word,
  initial, run, upper_token, run_token,
}
use sc_open.Tokens.Kinds.{TokenType, tt_unknown}
use sc_open.Tokens.Functions.{function_branches, get_token_type_function}
use sc_open.Tokens.Keywords.{keyword_branches, get_token_type}

-- All words of the branches, in their order.
unfoldable pub words_of : List Branch → Words
words_of [] = []
words_of (group c ws ∷ bs) = ws ++ words_of bs
words_of (word p kind ∷ bs) = (p, kind) ∷ words_of bs

-- The text of a pattern.
abbrev text_of : Pattern → Text
text_of (exact w) = w
text_of (prefix w) = w

-- The test that each pattern starts with a byte, or that none does and each has one.
unfoldable all_start : ℕ → Words → Bool
all_start c [] = true
all_start c ((p, kind) ∷ ws) =
    (not (initial (text_of p) == 0) && (initial (text_of p) == c)) && all_start c ws

unfoldable none_starts : ℕ → Words → Bool
none_starts c [] = true
none_starts c ((p, kind) ∷ ws) =
    (not (initial (text_of p) == 0) && not (initial (text_of p) == c)) && none_starts c ws

-- The words of a group start with its byte, and no later word does.
unfoldable separate : List Branch → Bool
separate [] = true
separate (group c ws ∷ bs) = (all_start c ws && none_starts c (words_of bs)) && separate bs
separate (word p kind ∷ bs) = separate bs

pub same_text-eq : (xs ys : Text) → same_text xs ys ≡ true → xs ≡ ys
unfolding same_text
same_text-eq [] [] h = refl
same_text-eq [] (y ∷ ys) h = cc
same_text-eq (x ∷ xs) [] h = cc
same_text-eq (x ∷ xs) (y ∷ ys) h = ground (arith, same_text-eq xs ys)

-- A token that matches has the first byte of the pattern.
matches-initial :
    (p : Pattern) (token : Text)
    → (initial (text_of p) == 0) ≡ false
    → matches p token ≡ true
    → initial token ≡ initial (text_of p)
unfolding matches
matches-initial (exact w) token h m = ap initial (same_text-eq token w m)
matches-initial (prefix []) token h m = unfold initial in cc
matches-initial (prefix (x ∷ xs)) [] h m = unfold has_prefix in cc
matches-initial (prefix (x ∷ xs)) (y ∷ ys) h m = unfold has_prefix initial in ground arith

pub both : (a b : Bool) → (a && b) ≡ true → (a ≡ true) × (b ≡ true)
both true true h = (refl, refl)
both true false h = cc
both false b h = cc

not-true : (b : Bool) → not b ≡ true → b ≡ false
not-true true h = cc
not-true false h = refl

-- A pattern that starts with a byte matches no token with another first byte.
no_match :
    (p : Pattern) (c : ℕ) (token : Text)
    → (initial token == c) ≡ false
    → (not (initial (text_of p) == 0) && (initial (text_of p) == c)) ≡ true
    → matches p token ≢ true
no_match p c token h s m =
    let (full, same) = both (not (initial (text_of p) == 0)) (initial (text_of p) == c) s in
    let first = matches-initial p token (not-true (initial (text_of p) == 0) full) m in
    let hit : (initial token == c) ≡ true = subst (λ n. (n == c) ≡ true) (sym first) same in cc

find-append_miss :
    (ws vs : Words) (c : ℕ) (token : Text)
    → (initial token == c) ≡ false
    → all_start c ws ≡ true
    → find (ws ++ vs) token ≡ find vs token
unfolding find all_start
find-append_miss [] vs c token h s = refl
find-append_miss ((p, kind) ∷ ws) vs c token h s =
    let (start, starts) =
      both (not (initial (text_of p) == 0) && (initial (text_of p) == c)) (all_start c ws) s in
    elim (Bool-cases (matches p token)) [
      | inl m ↦ absurd (no_match p c token h start m)
      | inr m ↦ rw (find, m) (find-append_miss ws vs c token h starts)
    ]

find-none :
    (vs : Words) (c : ℕ) (token : Text)
    → (initial token == c) ≡ true
    → none_starts c vs ≡ true
    → find vs token ≡ tt_unknown
unfolding find none_starts
find-none [] c token h s = refl
find-none ((p, kind) ∷ vs) c token h s =
    ground (arith, find-none vs c token, matches-initial p token)

find-append_hit :
    (ws vs : Words) (token : Text)
    → find vs token ≡ tt_unknown
    → find (ws ++ vs) token ≡ find ws token
unfolding find
find-append_hit [] vs token h = h
find-append_hit ((p, kind) ∷ ws) vs token h = elim (Bool-cases (matches p token)) [
  | inl m ↦ rw (find, m) refl
  | inr m ↦ rw (find, m) (find-append_hit ws vs token h)
]

run-find :
    (bs : List Branch) (token : Text) → separate bs ≡ true → run bs token ≡ find (words_of bs) token
unfolding run find words_of separate
run-find [] token s = refl
run-find (group c ws ∷ bs) token s =
    let (here, later) = both (all_start c ws && none_starts c (words_of bs)) (separate bs) s in
    let (start, apart) = both (all_start c ws) (none_starts c (words_of bs)) here in
    elim (Bool-cases (initial token == c)) [
      | inl h ↦
          rw (run, h)
            (sym (find-append_hit ws (words_of bs) token (find-none (words_of bs) c token h apart)))
      | inr h ↦
          rw (run, h)
            (run-find bs token later ∙ sym (find-append_miss ws (words_of bs) c token h start))
    ]
run-find (word p kind ∷ bs) token s = elim (Bool-cases (matches p token)) [
  | inl m ↦ rw (run, find, m) refl
  | inr m ↦ rw (run, find, m) (run-find bs token s)
]

-- The words of the functions and of the keywords and operators, in one list each.
unfoldable pub function_words : Words
function_words = words_of function_branches

unfoldable pub keyword_words : Words
keyword_words = words_of keyword_branches

-- A search through all words.
abbrev pub search_all : Words → Option Text → Option TokenType
search_all ws none = none
search_all ws (some token) = some (find ws token)

run_token-search_all :
    (bs : List Branch) (r : Option Text)
    → separate bs ≡ true
    → run_token bs r ≡ search_all (words_of bs) r
unfolding run_token
run_token-search_all bs none s = refl
run_token-search_all bs (some token) s = ap some (run-find bs token s)

functions-separate : separate function_branches ≡ true
unfolding separate function_branches all_start none_starts words_of initial
functions-separate = refl

keywords-separate : separate keyword_branches ≡ true
unfolding separate keyword_branches all_start none_starts words_of initial
keywords-separate = refl

-- Whatever toupper() does, get_token_type() and get_token_type_function(), which look at the first
-- byte before they compare words, return the type that one search through all words of theirs
-- finds, in the order of the source, and TT_UNKNOWN where no word matches.
pub get_token_type-search_all :
    (toupper : ℕ → ℕ) (t : Text)
    → (get_token_type toupper t ≡ search_all keyword_words (upper_token toupper t))
      × (get_token_type_function toupper t ≡ search_all function_words (upper_token toupper t))
unfolding get_token_type get_token_type_function function_words keyword_words
get_token_type-search_all toupper t = (
  run_token-search_all keyword_branches (upper_token toupper t) keywords-separate,
  run_token-search_all function_branches (upper_token toupper t) functions-separate,
)
