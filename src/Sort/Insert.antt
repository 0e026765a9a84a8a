-- ===== src/Sort/Insert.antt =====
-- `insert` finds the place of a word, and keeps the list linked.
use mathlib.Core.Path.{subst}
use operating_systems_cs.Prelude.{
  ℕ, zero, suc, ◌≤◌, ◌≡◌, refl, sym, ap, ◌∙◌, inl, inr, Bool-cases, arith, List, [], ◌∷◌, ◌++◌,
  length, ltb, ◌==◌, if◌then◌else◌, Option, none, some,
}
use operating_systems_cs.Sort.{
  strcmp, Nodes, Words, create_node, link, Place, already, before_node, seek, insert,
}
use operating_systems_cs.Sort.Segments.{first, last, Seg, Apart, Distinct, words, Distinct-insert}
use operating_systems_cs.Sort.Between.{created}
use operating_systems_cs.Sort.Link.{link-Linked}

-- The word is put in front of the first greater one, if it is not there.
unfoldable pub insert_word : List ℕ → List (List ℕ) → List (List ℕ)
unfolding strcmp
insert_word s [] = s ∷ []
insert_word s (w ∷ ws) =
    let (a, b) = strcmp s w in
    let rest = insert_word s ws in
    if a == b then w ∷ ws else if ltb a b then s ∷ w ∷ ws else w ∷ rest

-- The addresses `xs`, in order, are the list's nodes.
pub record IsList (list : Words) (xs : List ℕ) : Type 0 where
  pub starts : list.head ≡ first xs none
  pub ends : list.tail ≡ last none xs
  pub linked : Seg list.nodes none xs none
  pub distinct : Distinct xs

-- What the loop finds in the nodes `xs`.
data Sought (n : Nodes) (s : List ℕ) (xs : List ℕ) (place : Place) : Type 0 where
  present : place ≡ already → insert_word s (words n xs) ≡ words n xs → Sought n s xs place
  splits :
      (us vs : List ℕ)
      → us ++ vs ≡ xs
      → place ≡ before_node (first vs none)
      → insert_word s (words n xs) ≡ words n us ++ (s ∷ words n vs)
      → Sought n s xs place

go_on :
    (n : Nodes) (s : List ℕ) (x : ℕ) (xs : List ℕ) (place : Place)
    → insert_word s (words n (x ∷ xs)) ≡ (n x).word ∷ insert_word s (words n xs)
    → Sought n s xs place
    → Sought n s (x ∷ xs) place
go_on n s x xs place e (present p q) = present p (e ∙ ap (λ r. (n x).word ∷ r) q)
go_on n s x xs place e (splits us vs j p q) =
    splits (x ∷ us) vs (ap (λ r. x ∷ r) j) p (e ∙ ap (λ r. (n x).word ∷ r) q)

seek-Sought :
    (rounds : ℕ) (n : Nodes) (s : List ℕ) (b : Option ℕ) (xs : List ℕ)
    → length xs ≤ rounds
    → Seg n b xs none
    → Sought n s xs (seek rounds s (first xs none) n)
unfolding seek insert_word
seek-Sought zero n s b [] h seg = splits [] [] refl refl refl
seek-Sought (suc rounds) n s b [] h seg = splits [] [] refl refl refl
seek-Sought zero n s b (x ∷ xs) h seg = absurd (omega arith)
seek-Sought (suc rounds) n s b (x ∷ xs) h (back, forth, rest) =
    let d = strcmp s (n x).word in
    let later = seek-Sought rounds n s (some x) xs (omega arith) rest in
    elim (Bool-cases (d.0 == d.1)) [
      | inl same ↦ present (rw same refl) (rw same refl)
      | inr other ↦ elim (Bool-cases (ltb d.0 d.1)) [
        | inl less ↦ splits [] (x ∷ xs) refl (rw (other, less) refl) (rw (other, less) refl)
        | inr more ↦ rw (other, more, forth) (go_on n s x xs _ (rw (other, more) refl) later)
      ]
    ]

-- What `insert` gives: the nodes of the new list, with the word in its place.
pub record Inserted (n : Nodes) (s : List ℕ) (xs : List ℕ) (result : Option Words) : Type 0 where
  pub list : Words
  pub places : List ℕ
  pub done : result ≡ some list
  pub shape : IsList list places
  pub content : words list.nodes places ≡ insert_word s (words n xs)

insert_at :
    (temp : ℕ) (s : List ℕ) (list : Words) (xs : List ℕ) (place : Place)
    → IsList list xs
    → Apart temp xs
    → Sought list.nodes s xs place
    → Inserted list.nodes s xs (elim place [
      | already ↦ some list
      | before_node curr ↦ link temp curr (record list { nodes = create_node temp s list.nodes })
    ])
insert_at temp s list xs place shape a (present p q) =
    rw p (record { list = list; places = xs; done = refl; shape = shape; content = sym q })
insert_at temp s list xs place shape a (splits us vs j p q) =
    let n = list.nodes in
    let l =
      link-Linked n s temp us vs (subst (λ l. Seg n none l none) (sym j) shape.linked)
        (subst (Apart temp) (sym j) a) (subst Distinct (sym j) shape.distinct) in
    rw (p, shape.starts, shape.ends)
      (record {
        list = l.list;
        places = us ++ (temp ∷ vs);
        done = ap (λ ys. link temp (first vs none) (created n s temp ys)) (sym j) ∙ l.done;
        shape = record {
          starts = l.head;
          ends = l.tail;
          linked = l.seg;
          distinct =
              Distinct-insert temp us vs (subst (Apart temp) (sym j) a)
                (subst Distinct (sym j) shape.distinct);
        };
        content = l.content ∙ sym q;
      })

-- `insert` with a node at a new address and as many rounds as there are nodes: it dereferences no null
-- pointer, and the list is again linked both ways and holds the words with the new one in its place.
pub insert_lem :
    (rounds temp : ℕ) (s : List ℕ) (list : Words) (xs : List ℕ)
    → length xs ≤ rounds
    → IsList list xs
    → Apart temp xs
    → Inserted list.nodes s xs (insert rounds temp s list)
unfolding insert
insert_lem rounds temp s list xs h shape a =
    insert_at temp s list xs (seek rounds s list.head list.nodes) shape a
      (rw shape.starts (seek-Sought rounds list.nodes s none xs h shape.linked))
