-- ===== src/Sort/Sorted.antt =====
-- The words stay in order.
use mathlib.Core.Path.{subst}
use operating_systems_cs.Prelude.{
  ℕ, ◌≤◌, ◌≡◌, refl, sym, inl, inr, true, false, Bool-cases, arith, List, [], ◌∷◌, length, ltb,
  ◌==◌, Option, some,
}
use operating_systems_cs.Sort.{strcmp, Words, insert}
use operating_systems_cs.Sort.Segments.{Apart, words}
use operating_systems_cs.Sort.Insert.{insert_word, IsList, insert_lem}

-- `strcmp` returns less than 0.
abbrev pub IsLess : List ℕ → List ℕ → Type 0
IsLess a b = ltb (strcmp a b).0 (strcmp a b).1 ≡ true

abbrev pub Below : List ℕ → List (List ℕ) → Type 0
Below b [] = Unit {0}
Below b (w ∷ ws) = IsLess b w

abbrev pub Sorted : List (List ℕ) → Type 0
Sorted [] = Unit {0}
Sorted (w ∷ ws) = Below w ws × Sorted ws

strcmp_swap : (a b : List ℕ) → strcmp b a ≡ ((strcmp a b).1, (strcmp a b).0)
unfolding strcmp
strcmp_swap [] [] = refl
strcmp_swap [] (y ∷ ys) = refl
strcmp_swap (x ∷ xs) [] = refl
strcmp_swap (x ∷ xs) (y ∷ ys) = elim (Bool-cases (x == y)) [
  | inl same ↦ let back : (y == x) ≡ true = ground arith in rw (same, back) (strcmp_swap xs ys)
  | inr other ↦ let back : (y == x) ≡ false = ground arith in rw (other, back) refl
]

-- What is neither equal nor less is greater.
greater-IsLess :
    (a b : List ℕ)
    → ((strcmp a b).0 == (strcmp a b).1) ≡ false
    → ltb (strcmp a b).0 (strcmp a b).1 ≡ false
    → IsLess b a
greater-IsLess a b ne nl = rw (strcmp_swap a b) (ground arith)

insert_word-Below :
    (b s : List ℕ) (ws : List (List ℕ)) → IsLess b s → Below b ws → Below b (insert_word s ws)
unfolding insert_word
insert_word-Below b s [] l h = l
insert_word-Below b s (w ∷ ws) l h = elim (Bool-cases ((strcmp s w).0 == (strcmp s w).1)) [
  | inl same ↦ rw same h
  | inr other ↦ elim (Bool-cases (ltb (strcmp s w).0 (strcmp s w).1)) [
    | inl less ↦ rw (other, less) l
    | inr more ↦ rw (other, more) h
  ]
]

insert_word-Sorted : (s : List ℕ) (ws : List (List ℕ)) → Sorted ws → Sorted (insert_word s ws)
unfolding insert_word
insert_word-Sorted s [] h = (tt, tt)
insert_word-Sorted s (w ∷ ws) (b, h) = elim (Bool-cases ((strcmp s w).0 == (strcmp s w).1)) [
  | inl same ↦ rw same (b, h)
  | inr other ↦ elim (Bool-cases (ltb (strcmp s w).0 (strcmp s w).1)) [
    | inl less ↦ rw (other, less) (less, (b, h))
    | inr more ↦
        rw (other, more)
          (insert_word-Below w s ws (greater-IsLess s w other more) b, insert_word-Sorted s ws h)
  ]
]

-- What `insert` gives on a sorted list.
pub record InsertedSorted (result : Option Words) : Type 0 where
  pub list : Words
  pub places : List ℕ
  pub done : result ≡ some list
  pub shape : IsList list places
  pub sorted : Sorted (words list.nodes places)

-- `insert` on a list whose words increase strictly, in the order of `strcmp`, gives such a list, linked
-- both ways.
pub insert-Sorted :
    (rounds temp : ℕ) (s : List ℕ) (list : Words) (xs : List ℕ)
    → length xs ≤ rounds
    → IsList list xs
    → Apart temp xs
    → Sorted (words list.nodes xs)
    → InsertedSorted (insert rounds temp s list)
insert-Sorted rounds temp s list xs h shape a sorted =
    let i = insert_lem rounds temp s list xs h shape a in
    record {
      list = i.list;
      places = i.places;
      done = i.done;
      shape = i.shape;
      sorted = subst Sorted (sym i.content) (insert_word-Sorted s (words list.nodes xs) sorted);
    }
