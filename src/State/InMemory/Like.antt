-- ===== src/State/InMemory/Like.antt =====
-- `likeToRegex` of state/in-memory/in_memory.go, and the regular expressions that it makes.
pub mod Correct
use dapr_components_contrib.Prelude.{
  ℕ, Text, codes, List, [], ◌∷◌, Bool, true, false, not, ◌&&◌, ◌||◌, ◌==◌, if◌then◌else◌,
}

-- The pieces that the string builder receives between `^` and `$`: `.*`, `.`, and a quoted
-- character. Each is a whole regular expression, so that `Compile` cannot fail.
pub data Piece : Type 0 where
  any_run any_char : Piece
  literal : ℕ → Piece

abbrev pub backslash : ℕ
backslash = 92

abbrev pub percent : ℕ
percent = b'%'

abbrev pub underscore : ℕ
underscore = b'_'

abbrev pub newline : ℕ
newline = 10

-- the loop over the runes of the pattern, with `escaped`
unfoldable pub like_pieces : Bool → Text → List Piece
like_pieces false [] = []
like_pieces true [] = literal backslash ∷ []
like_pieces true (r ∷ pattern_) = literal r ∷ like_pieces false pattern_
like_pieces false (r ∷ pattern_) =
    let rest = like_pieces (r == backslash) pattern_ in
    if r == backslash
    then rest
    else if r == percent
    then any_run ∷ rest
    else if r == underscore
    then any_char ∷ rest
    else literal r ∷ rest

-- likeToRegex
unfoldable pub like_to_regex : Text → List Piece
unfolding like_pieces
like_to_regex pattern_ = like_pieces false pattern_

-- MatchString of the compiled expression, which `^` and `$` hold to the whole text. Without the
-- flag `s` a dot does not match a newline.
unfoldable pub match_string : List Piece → Text → Bool
match_string [] [] = true
match_string [] (d ∷ t) = false
match_string (literal c ∷ ps) [] = false
match_string (literal c ∷ ps) (d ∷ t) = c == d && match_string ps t
match_string (any_char ∷ ps) [] = false
match_string (any_char ∷ ps) (d ∷ t) = not (d == newline) && match_string ps t
match_string (any_run ∷ ps) [] = match_string ps []
match_string (any_run ∷ ps) (d ∷ t) =
    match_string ps (d ∷ t) || (not (d == newline) && match_string (any_run ∷ ps) t)
