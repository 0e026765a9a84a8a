-- ===== src/Paths/Elements.antt =====
-- `skipelem` gives the elements of a path one after another.
use operating_systems_cs.Prelude.{
  ℕ, zero, suc, ◌≤◌, ◌<◌, ◌≡◌, refl, sym, ap, ◌∙◌, ◌⊎◌, inl, inr, Bool, true, false, List, [], ◌∷◌,
  map, arith, ◌==◌, if◌then◌else◌, Bool-cases, none, some, take, length,
}
use operating_systems_cs.Paths.{
  slash, dirsiz, is_empty, skip_slashes, element, after_element, first_element, skipelem,
}

-- The pieces of a path between its slashes, empty ones included: at least one.
abbrev pub onto : ℕ → List (List ℕ) → List (List ℕ)
onto c [] = (c ∷ []) ∷ []
onto c (p ∷ ps) = (c ∷ p) ∷ ps

abbrev pub pieces : List ℕ → List (List ℕ)
pieces [] = [] ∷ []
pieces (c ∷ cs) = if c == slash then [] ∷ pieces cs else onto c (pieces cs)

abbrev pub nonempty : List (List ℕ) → List (List ℕ)
nonempty [] = []
nonempty ([] ∷ ps) = nonempty ps
nonempty ((c ∷ p) ∷ ps) = (c ∷ p) ∷ nonempty ps

-- The names that repeated calls of `skipelem` give, in at most so many calls.
pub names : ℕ → List ℕ → List (List ℕ)
names zero path = []
names (suc n) path = elim (skipelem path) [ none ↦ [] | some (rest, name) ↦ name ∷ names n rest ]

skip_pieces : (path : List ℕ) → nonempty (pieces (skip_slashes path)) ≡ nonempty (pieces path)
unfolding skip_slashes
skip_pieces [] = refl
skip_pieces (c ∷ cs) = elim (Bool-cases (c == slash)) [
  | inl s ↦ rw s (skip_pieces cs)
  | inr o ↦ rw (o, o) refl
]

-- The first piece is the element, the others are those after it.
abbrev rest_pieces : List ℕ → List (List ℕ)
rest_pieces [] = []
rest_pieces (c ∷ cs) = pieces cs

split_pieces : (path : List ℕ) → pieces path ≡ element path ∷ rest_pieces (after_element path)
unfolding element after_element
split_pieces [] = refl
split_pieces (c ∷ cs) = elim (Bool-cases (c == slash)) [
  | inl s ↦ rw s refl
  | inr o ↦ rw o (ap (onto c) (split_pieces cs))
]

rest_nonempty :
    (path : List ℕ)
    → nonempty (rest_pieces (after_element path)) ≡ nonempty (pieces (after_element path))
unfolding after_element
rest_nonempty [] = refl
rest_nonempty (c ∷ cs) = elim (Bool-cases (c == slash)) [
  | inl s ↦ rw (s, s) refl
  | inr o ↦ rw o (rest_nonempty cs)
]

length-skip : (path : List ℕ) → length (skip_slashes path) ≤ length path
unfolding skip_slashes
length-skip [] = omega arith
length-skip (c ∷ cs) = ground (arith, length-skip cs)

length-after : (path : List ℕ) → length (after_element path) ≤ length path
unfolding after_element
length-after [] = omega arith
length-after (c ∷ cs) = ground (arith, length-after cs)

-- A path without leading slashes starts with a byte of its first element.
skip_head :
    (path : List ℕ)
    → (skip_slashes path ≡ [])
      ⊎ ((c : ℕ) × (cs : List ℕ) × (skip_slashes path ≡ c ∷ cs) × ((c == slash) ≡ false))
unfolding skip_slashes
skip_head [] = inl refl
skip_head (c ∷ cs) = elim (Bool-cases (c == slash)) [
  | inl s ↦ rw s (skip_head cs)
  | inr o ↦ rw o (inr (c, cs, refl, o))
]

abbrev pub no_names : List (List ℕ) → Bool
no_names [] = true
no_names (p ∷ ps) = false

-- A path without leading slashes is empty exactly when it has no element.
skip_empty :
    (path : List ℕ)
    → is_empty (skip_slashes path) ≡ no_names (nonempty (pieces (skip_slashes path)))
skip_empty path = elim (skip_head path) [
  | inl e ↦ rw e refl
  | inr (c, cs, e, o) ↦ rw (e, split_pieces (c ∷ cs)) (head_there c cs o)
]
  where
    head_there :
        (c : ℕ) (cs : List ℕ)
        → (c == slash) ≡ false
        → false ≡ no_names (nonempty (element (c ∷ cs) ∷ rest_pieces (after_element (c ∷ cs))))
    head_there c cs o =
        let el : element (c ∷ cs) ≡ c ∷ element cs = unfold element in rw o refl in rw el refl

-- What one call of `skipelem` does: the path has no element, or the call returns the first one cut to
-- DIRSIZ bytes and a shorter path with the others.
pub skipelem_cases :
    (path : List ℕ)
    → ((skipelem path ≡ none) × (nonempty (pieces path) ≡ []))
      ⊎ ((rest : List ℕ) × (piece : List ℕ) × (skipelem path ≡ some (rest, take dirsiz piece))
          × (nonempty (pieces path) ≡ piece ∷ nonempty (pieces rest))
          × (length rest < length path)
          × (is_empty rest ≡ no_names (nonempty (pieces rest))))
unfolding skipelem first_element
skipelem_cases path = elim (skip_head path) [
  | inl none_left ↦
      inl (rw none_left refl, sym (skip_pieces path) ∙ ap (λ p. nonempty (pieces p)) none_left)
  | inr (c, cs, e, o) ↦
      let after = after_element cs in
      let el : element (c ∷ cs) ≡ c ∷ element cs = unfold element in rw o refl in
      let af : after_element (c ∷ cs) ≡ after = unfold after_element in rw o refl in
      inr (
        skip_slashes after,
        c ∷ element cs,
        rw e (rw (el, af) refl),
        sym (skip_pieces path)
            ∙ ap (λ p. nonempty (pieces p)) e
            ∙ ap nonempty (split_pieces (c ∷ cs))
            ∙ rw (el, af)
                (ap (λ ps. (c ∷ element cs) ∷ ps) (rest_nonempty cs ∙ sym (skip_pieces after))),
        (let h = length-skip path in
            let l : length (skip_slashes path) ≡ suc (length cs) = rw e refl in
            let h1 = length-after cs in let h2 = length-skip after in omega arith),
        skip_empty after,
      )
]

-- Repeated calls of `skipelem`, as many as the path has bytes and one more, give exactly the non-empty
-- pieces between the slashes of the path, in order, each cut to DIRSIZ bytes.
pub names_lem :
    (n : ℕ) (path : List ℕ)
    → length path < n
    → names n path ≡ map (take dirsiz) (nonempty (pieces path))
unfolding names
names_lem zero path h = absurd (omega arith)
names_lem (suc n) path h = elim (skipelem_cases path) [
  | inl (e, e') ↦ rw (e, e', names) refl
  | inr (rest, piece, e, e', lt, em) ↦
      rw (e, e', names) (ap (λ ns. take dirsiz piece ∷ ns) (names_lem n rest (omega arith)))
]
