-- ===== src/Grep.antt =====
-- project4/grep.c: the matcher. A string is the list of its characters before the final NUL. `matchstar`
-- takes what `matchhere` does with the rest of the pattern as an argument.
pub mod Language
pub mod Search
pub mod Tests
use operating_systems_cs.Prelude.{
  ℕ, Bool, true, false, ◌&&◌, ◌||◌, List, [], ◌∷◌, ◌==◌, if◌then◌else◌,
}

abbrev pub caret : ℕ
caret = 94

abbrev pub star_char : ℕ
star_char = 42

abbrev pub dollar : ℕ
dollar = 36

abbrev pub dot : ℕ
dot = 46

abbrev pub at_end : List ℕ → Bool
at_end [] = true
at_end (x ∷ xs) = false

-- The test of one character, and then the rest of the text.
abbrev pub one_char : ℕ → (List ℕ → Bool) → List ℕ → Bool
one_char c here [] = false
one_char c here (x ∷ xs) = (c == dot || c == x) && here xs

pub matchstar : ℕ → (List ℕ → Bool) → List ℕ → Bool
matchstar c here [] = here []
matchstar c here (x ∷ xs) = here (x ∷ xs) || ((x == c || c == dot) && matchstar c here xs)

pub matchhere : List ℕ → List ℕ → Bool
unfolding matchstar
matchhere [] text = true
matchhere (c ∷ []) text = if c == dollar then at_end text else one_char c (λ t. true) text
matchhere (c ∷ d ∷ re) text =
    if d == star_char
    then matchstar c (λ t. matchhere re t) text
    else one_char c (λ t. matchhere (d ∷ re) t) text

-- The loop of `match`: it looks at the empty string too.
pub search_from : List ℕ → List ℕ → Bool
unfolding matchhere
search_from re [] = matchhere re []
search_from re (x ∷ xs) = matchhere re (x ∷ xs) || search_from re xs

pub match_re : List ℕ → List ℕ → Bool
unfolding matchhere search_from
match_re [] text = search_from [] text
match_re (c ∷ re) text = if c == caret then matchhere re text else search_from (c ∷ re) text
