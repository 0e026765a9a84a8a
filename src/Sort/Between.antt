-- ===== src/Sort/Between.antt =====
-- A new node between its neighbours.
use operating_systems_cs.Prelude.{ℕ, ◌≡◌, refl, ◌∙◌, ◌≢◌, List, [], ◌∷◌, ◌++◌, Option, none, some}
use operating_systems_cs.Sort.{Nodes, Words, create_node}
use operating_systems_cs.Sort.Segments.{
  first, last, Seg, Apart, Agree, words, Seg-join, Seg-split, Agree-Seg, Apart-split, words-append,
  words_same,
}

-- The new node `t` stands between `us` and `vs`.
pub record Between (m n : Nodes) (s : List ℕ) (t : ℕ) (us vs : List ℕ) : Type 0 where
  pub fresh : Apart t (us ++ vs)
  pub left : Seg m none us (some t)
  pub back : (m t).prev ≡ last none us
  pub forth : (m t).next ≡ first vs none
  pub right : Seg m (some t) vs none
  pub word : (m t).word ≡ s
  pub others : (y : ℕ) → t ≢ y → (m y).word ≡ (n y).word

Between-Seg :
    (m n : Nodes) (s : List ℕ) (t : ℕ) (us vs : List ℕ)
    → Between m n s t us vs
    → Seg m none (us ++ (t ∷ vs)) none
Between-Seg m n s t us vs b = Seg-join m none us (t ∷ vs) none b.left (b.back, b.forth, b.right)

Between-words :
    (m n : Nodes) (s : List ℕ) (t : ℕ) (us vs : List ℕ)
    → Between m n s t us vs
    → words m (us ++ (t ∷ vs)) ≡ words n us ++ (s ∷ words n vs)
Between-words m n s t us vs b =
    let (au, av) = Apart-split t us vs b.fresh in
    words-append m us (t ∷ vs)
    ∙ rw (words_same m n t us au b.others, words_same m n t vs av b.others, b.word) refl

-- The piece before the new node, whose last node points to it.
pub left_piece :
    (m n : Nodes) (t p : ℕ) (ws : List ℕ) (a : Option ℕ)
    → Seg n none (ws ++ (p ∷ [])) a
    → Agree m n ws
    → (m p).prev ≡ (n p).prev
    → (m p).next ≡ some t
    → Seg m none (ws ++ (p ∷ [])) (some t)
left_piece m n t p ws a s e back forth =
    let (front, (prev, end, nil)) = Seg-split n none ws (p ∷ []) a s in
    Seg-join m none ws (p ∷ []) (some t) (Agree-Seg m n none ws (some p) e front)
      (back ∙ prev, forth, tt)

-- What the linking gives.
pub record Linked (n : Nodes) (s : List ℕ) (t : ℕ) (us vs : List ℕ) (result : Option Words)
    : Type 0 where
  pub list : Words
  pub done : result ≡ some list
  pub head : list.head ≡ first (us ++ (t ∷ vs)) none
  pub tail : list.tail ≡ last none (us ++ (t ∷ vs))
  pub seg : Seg list.nodes none (us ++ (t ∷ vs)) none
  pub content : words list.nodes (us ++ (t ∷ vs)) ≡ words n us ++ (s ∷ words n vs)

-- A list with the new node created and not yet linked.
abbrev pub created : Nodes → List ℕ → ℕ → List ℕ → Words
created n s t xs = record { head = first xs none; tail = last none xs; nodes = create_node t s n }

pub Between-Linked :
    (m n : Nodes) (s : List ℕ) (t : ℕ) (us vs : List ℕ) (result : Option Words)
    → Between m n s t us vs
    → result
      ≡ some (record {
        head = first (us ++ (t ∷ vs)) none;
        tail = last none (us ++ (t ∷ vs));
        nodes = m;
      })
    → Linked n s t us vs result
Between-Linked m n s t us vs result b e = record {
  list = record {
    head = first (us ++ (t ∷ vs)) none;
    tail = last none (us ++ (t ∷ vs));
    nodes = m;
  };
  done = e;
  head = refl;
  tail = refl;
  seg = Between-Seg m n s t us vs b;
  content = Between-words m n s t us vs b;
}
