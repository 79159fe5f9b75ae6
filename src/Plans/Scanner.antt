-- ===== src/Plans/Scanner.antt =====
-- The regular expression VARIABLE of apps/api/plimsoll_api/plans/jmx.py.
use bonerepo.Prelude.{
  ℕ, Bool, true, false, not, ◌&&◌, ◌||◌, Option, none, some, List, [], ◌∷◌, ◌==◌, if◌then◌else◌,
}
use bonerepo.Prelude.Texts.{Text, codes, is_digit, is_letter, after_prefix, starts_with}

unfoldable pub is_word_code : ℕ → Bool
unfolding is_letter is_digit
is_word_code c = is_letter c || is_digit c || c == b'_'

unfoldable pub is_word_start : ℕ → Bool
unfolding is_letter
is_word_start c = is_letter c || c == b'_'

unfoldable pub closed_step : Bool → Bool → ℕ → Option Text → Option Text
closed_step true is_word c rest = some []
closed_step false true c (some word) = some (c ∷ word)
closed_step false _ c rest = none

-- The characters of the word that stand before a `}`.
unfoldable pub closed_word : Text → Option Text
unfolding is_word_code closed_step
closed_word [] = none
closed_word (c ∷ s) = closed_step (c == b'}') (is_word_code c) c (closed_word s)

unfoldable pub is_name : Text → Bool
unfolding is_word_start
is_name [] = false
is_name (c ∷ s) = is_word_start c

unfoldable pub name_only : Option Text → Option Text
unfolding is_name starts_with
name_only none = none
name_only (some word) =
    if is_name word && not (starts_with (codes "__") word) then some word else none

unfoldable pub name_behind : Option Text → Option Text
unfolding closed_word name_only
name_behind none = none
name_behind (some s) = name_only (closed_word s)

-- VARIABLE, matched at the head of a text.
unfoldable pub match_variable : Text → Option Text
unfolding name_behind after_prefix
match_variable s = name_behind (after_prefix (codes "${") s)

unfoldable pub prepend : Option Text → List Text → List Text
prepend none names = names
prepend (some name) names = name ∷ names

-- VARIABLE.findall: a match holds no other `$`, so the search may go on at the next character.
unfoldable pub find_variables : Text → List Text
unfolding prepend match_variable
find_variables [] = []
find_variables (c ∷ s) = prepend (match_variable (c ∷ s)) (find_variables s)
