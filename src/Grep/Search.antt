-- ===== src/Grep/Search.antt =====
-- The search of the matcher through a text.
use operating_systems_cs.Prelude.{
  ℕ, ◌≡◌, refl, sym, ap, ◌∙◌, ◌↔◌, Bool, true, false, not, ◌&&◌, arith, Bool-cases, List, [], ◌∷◌,
  ◌++◌, ◌==◌, if◌then◌else◌, inl, inr,
}
use operating_systems_cs.Grep.{caret, at_end, matchhere, search_from, match_re}
use operating_systems_cs.Grep.Language.{
  items, Spells, Begins, matchhere-accept, accept-Begins, spelled-accept, or_second,
}

abbrev pub anchored : List ℕ → Bool
anchored [] = false
anchored (c ∷ re) = c == caret

abbrev pub body : List ℕ → List ℕ
body [] = []
body (c ∷ re) = if c == caret then re else c ∷ re

-- Some part of the text is spelled by the pattern; it starts the text if the pattern is anchored.
pub record Found (re t : List ℕ) : Type 0 where
  pub before : List ℕ
  pub spelled : List ℕ
  pub after : List ℕ
  pub splits : before ++ (spelled ++ after) ≡ t
  pub spells : Spells (items (body re)) spelled after
  pub starts : (anchored re && not (at_end before)) ≡ false

-- The same for a pattern without its anchor.
record Inside (re t : List ℕ) : Type 0 where
  before : List ℕ
  spelled : List ℕ
  after : List ℕ
  splits : before ++ (spelled ++ after) ≡ t
  spells : Spells (items re) spelled after

here-Begins : (re t : List ℕ) → matchhere re t ≡ true → Begins (items re) t
here-Begins re t h = accept-Begins (items re) t (sym (matchhere-accept re t) ∙ h)

spelled-here : (re u v : List ℕ) → Spells (items re) u v → matchhere re (u ++ v) ≡ true
spelled-here re u v s = matchhere-accept re (u ++ v) ∙ spelled-accept (items re) u v s

search-here : (re t : List ℕ) → matchhere re t ≡ true → search_from re t ≡ true
unfolding search_from
search-here re [] h = h
search-here re (x ∷ xs) h = rw h refl

at_start : (re t : List ℕ) → matchhere re t ≡ true → Inside re t
at_start re t e =
    let b = here-Begins re t e in
    record {
      before = [];
      spelled = b.spelled;
      after = b.left;
      splits = b.splits;
      spells = b.spells;
    }

search-Inside : (re t : List ℕ) → search_from re t ≡ true → Inside re t
unfolding search_from
search-Inside re [] h = at_start re [] h
search-Inside re (x ∷ xs) h = elim (Bool-cases (matchhere re (x ∷ xs))) [
  | inl e ↦ at_start re (x ∷ xs) e
  | inr e ↦
      let i = search-Inside re xs (or_second _ _ h e) in
      record {
        before = x ∷ i.before;
        spelled = i.spelled;
        after = i.after;
        splits = ap (λ r. x ∷ r) i.splits;
        spells = i.spells;
      }
]

inside-search :
    (re before u v : List ℕ) → Spells (items re) u v → search_from re (before ++ (u ++ v)) ≡ true
unfolding search_from
inside-search re [] u v s = search-here re (u ++ v) (spelled-here re u v s)
inside-search re (x ∷ xs) u v s = elim (Bool-cases (matchhere re (x ∷ (xs ++ (u ++ v))))) [
  | inl e ↦ rw e refl
  | inr e ↦ rw e (inside-search re xs u v s)
]

match-Found : (re t : List ℕ) → match_re re t ≡ true → Found re t
unfolding match_re
match-Found [] t h =
    let i = search-Inside [] t h in
    record {
      before = i.before;
      spelled = i.spelled;
      after = i.after;
      splits = i.splits;
      spells = i.spells;
      starts = refl;
    }
match-Found (c ∷ re) t h = elim (Bool-cases (c == caret)) [
  | inl e ↦
      let b = here-Begins re t (rw e at h) in
      record {
        before = [];
        spelled = b.spelled;
        after = b.left;
        splits = b.splits;
        spells = rw e b.spells;
        starts = rw e refl;
      }
  | inr e ↦
      let i = search-Inside (c ∷ re) t (rw e at h) in
      record {
        before = i.before;
        spelled = i.spelled;
        after = i.after;
        splits = i.splits;
        spells = rw e i.spells;
        starts = rw e refl;
      }
]

first_here :
    (re before u v : List ℕ)
    → Spells (items re) u v
    → not (at_end before) ≡ false
    → matchhere re (before ++ (u ++ v)) ≡ true
first_here re [] u v s a = spelled-here re u v s
first_here re (x ∷ xs) u v s a = absurd (ground arith)

found-match :
    (re before u v : List ℕ)
    → Spells (items (body re)) u v
    → (anchored re && not (at_end before)) ≡ false
    → match_re re (before ++ (u ++ v)) ≡ true
unfolding match_re
found-match [] before u v s a = inside-search [] before u v s
found-match (c ∷ re) before u v s a = elim (Bool-cases (c == caret)) [
  | inl e ↦ rw e (first_here re before u v (rw e at s) (rw e at a))
  | inr e ↦ rw e (inside-search (c ∷ re) before u v (rw e at s))
]

-- `match` returns 1 exactly where some part of the text is spelled by the pattern, and starts the text if
-- the pattern begins with `^`.
pub match_lem : (re t : List ℕ) → (match_re re t ≡ true) ↔ Found re t
match_lem re t = (
  match-Found re t,
  λ f.
      ap (match_re re) (sym f.splits) ∙ found-match re f.before f.spelled f.after f.spells f.starts,
)
