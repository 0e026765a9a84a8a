-- ===== src/Grep/Tests.antt =====
-- The pattern `^ab*.$` on some texts.
use operating_systems_cs.Prelude.{ℕ, ◌≡◌, refl, ◌↔◌, true, false, List, [], ◌∷◌}
use operating_systems_cs.Grep.{match_re}
use operating_systems_cs.Grep.Search.{Found, match_lem}

abbrev pattern_text : List ℕ
pattern_text = 94 ∷ 97 ∷ 98 ∷ 42 ∷ 46 ∷ 36 ∷ []

matches : match_re pattern_text (97 ∷ 98 ∷ 98 ∷ 99 ∷ []) ≡ true
unfolding match_re
matches = refl

misses : match_re pattern_text (99 ∷ 97 ∷ 98 ∷ 99 ∷ []) ≡ false
unfolding match_re
misses = refl

match_lem_example :
    (match_re pattern_text (97 ∷ 98 ∷ 98 ∷ 99 ∷ []) ≡ true)
    ↔ Found pattern_text (97 ∷ 98 ∷ 98 ∷ 99 ∷ [])
match_lem_example = match_lem pattern_text (97 ∷ 98 ∷ 98 ∷ 99 ∷ [])
