-- ===== src/Tokens.antt =====
-- source/tokens.c: the type of a token, by its text. A text is the bytes of a C string in front of its
-- NUL.
pub mod Kinds
pub mod Functions
pub mod Keywords
pub mod Names
pub mod Flat
pub mod Printed
mod Tests
use sc_open.Prelude.{
  ℕ, zero, suc, Bool, true, false, ◌&&◌, Option, none, some, List, [], ◌∷◌, ◌++◌, length, map, ltb,
  ◌==◌, if◌then◌else◌,
}
use sc_open.Tokens.Kinds.{TokenType, tt_unknown}

abbrev pub Text : Type 0
Text = List ℕ

-- strcmp(a, b) == 0
unfoldable pub same_text : Text → Text → Bool
same_text [] [] = true
same_text [] (y ∷ ys) = false
same_text (x ∷ xs) [] = false
same_text (x ∷ xs) (y ∷ ys) = (x == y) && same_text xs ys

-- strncmp(token, word, strlen(word)) == 0
unfoldable pub has_prefix : (word token : Text) → Bool
has_prefix [] token = true
has_prefix (x ∷ xs) [] = false
has_prefix (x ∷ xs) (y ∷ ys) = (x == y) && has_prefix xs ys

-- What a test looks for: the whole token, or how it starts.
pub data Pattern : Type 0 where
  exact prefix : Text → Pattern

unfoldable pub matches : Pattern → Text → Bool
matches (exact w) token = same_text token w
matches (prefix w) token = has_prefix w token

abbrev pub Words : Type 0
Words = List (Pattern × TokenType)

-- A chain of tests, of which the first that holds counts.
unfoldable pub find : Words → Text → TokenType
find [] token = tt_unknown
find ((p, kind) ∷ ws) token = let rest = find ws token in if matches p token then kind else rest

-- A test of the outer chain: of the first byte, in front of the tests for its words, or of a word.
pub data Branch : Type 0 where
  group : ℕ → Words → Branch
  word : Pattern → TokenType → Branch

-- token[0]
unfoldable pub initial : Text → ℕ
initial [] = 0
initial (c ∷ cs) = c

unfoldable pub run : List Branch → Text → TokenType
run [] token = tt_unknown
run (group c ws ∷ bs) token =
    let rest = run bs token in if initial token == c then find ws token else rest
run (word p kind ∷ bs) token = let rest = run bs token in if matches p token then kind else rest

-- The copy of the token in upper case, in an array of 128 bytes. `none`: a token of 127 bytes or
-- more has no NUL in the array.
unfoldable pub upper_token : (toupper : ℕ → ℕ) → Text → Option Text
upper_token toupper t = if ltb (length t) 127 then some (map toupper t) else none

unfoldable pub run_token : List Branch → Option Text → Option TokenType
run_token bs none = none
run_token bs (some token) = some (run bs token)
