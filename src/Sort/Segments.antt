-- ===== src/Sort/Segments.antt =====
-- Pieces of a doubly linked list.
use operating_systems_cs.Prelude.{
  ℕ, ◌≡◌, refl, sym, ap, ◌∙◌, ◌≢◌, List, [], ◌∷◌, ◌++◌, map, Option, some, update, update_ne,
}
use operating_systems_cs.Sort.{Node, Nodes}

-- The first and the last address of a piece, or what is beyond it.
abbrev pub first : List ℕ → Option ℕ → Option ℕ
first [] beyond = beyond
first (x ∷ xs) beyond = some x

abbrev pub last : Option ℕ → List ℕ → Option ℕ
last beyond [] = beyond
last beyond (x ∷ xs) = last (some x) xs

-- The nodes `xs` are linked both ways, between `b` and `a`.
abbrev pub Seg : Nodes → Option ℕ → List ℕ → Option ℕ → Type 0
Seg n b [] a = Unit {0}
Seg n b (x ∷ xs) a = ((n x).prev ≡ b) × ((n x).next ≡ first xs a) × Seg n (some x) xs a

abbrev pub Apart : ℕ → List ℕ → Type 0
Apart k [] = Unit {0}
Apart k (x ∷ xs) = (k ≢ x) × Apart k xs

abbrev pub Distinct : List ℕ → Type 0
Distinct [] = Unit {0}
Distinct (x ∷ xs) = Apart x xs × Distinct xs

-- Two stores that have the same nodes at `xs`.
abbrev pub Agree : Nodes → Nodes → List ℕ → Type 0
Agree m n [] = Unit {0}
Agree m n (x ∷ xs) = (m x ≡ n x) × Agree m n xs

abbrev pub words : Nodes → List ℕ → List (List ℕ)
words n xs = map (λ x. (n x).word) xs

pub first-append : (us vs : List ℕ) (a : Option ℕ) → first (us ++ vs) a ≡ first us (first vs a)
first-append [] vs a = refl
first-append (u ∷ us) vs a = refl

pub last-append : (b : Option ℕ) (us vs : List ℕ) → last b (us ++ vs) ≡ last (last b us) vs
last-append b [] vs = refl
last-append b (u ∷ us) vs = last-append (some u) us vs

pub Seg-join :
    (n : Nodes) (b : Option ℕ) (us vs : List ℕ) (a : Option ℕ)
    → Seg n b us (first vs a)
    → Seg n (last b us) vs a
    → Seg n b (us ++ vs) a
Seg-join n b [] vs a s t = t
Seg-join n b (u ∷ us) vs a (p, q, s) t =
    (p, q ∙ sym (first-append us vs a), Seg-join n (some u) us vs a s t)

pub Seg-split :
    (n : Nodes) (b : Option ℕ) (us vs : List ℕ) (a : Option ℕ)
    → Seg n b (us ++ vs) a
    → Seg n b us (first vs a) × Seg n (last b us) vs a
Seg-split n b [] vs a s = (tt, s)
Seg-split n b (u ∷ us) vs a (p, q, s) =
    let (left, right) = Seg-split n (some u) us vs a s in
    ((p, q ∙ first-append us vs a, left), right)

pub Agree-Seg :
    (m n : Nodes) (b : Option ℕ) (xs : List ℕ) (a : Option ℕ)
    → Agree m n xs
    → Seg n b xs a
    → Seg m b xs a
Agree-Seg m n b [] a e s = tt
Agree-Seg m n b (x ∷ xs) a (e, es) (p, q, s) =
    (ap (λ c. c.prev) e ∙ p, ap (λ c. c.next) e ∙ q, Agree-Seg m n (some x) xs a es s)

pub Agree-refl : (n : Nodes) (xs : List ℕ) → Agree n n xs
Agree-refl n [] = tt
Agree-refl n (x ∷ xs) = (refl, Agree-refl n xs)

pub Agree-update :
    (m n : Nodes) (k : ℕ) (c : Node) (xs : List ℕ)
    → Apart k xs
    → Agree m n xs
    → Agree (update m k c) n xs
Agree-update m n k c [] a e = tt
Agree-update m n k c (x ∷ xs) (d, a) (e, es) =
    (update_ne m k x c d ∙ e, Agree-update m n k c xs a es)

pub Apart-split : (k : ℕ) (us vs : List ℕ) → Apart k (us ++ vs) → Apart k us × Apart k vs
Apart-split k [] vs a = (tt, a)
Apart-split k (u ∷ us) vs (d, a) = let (left, right) = Apart-split k us vs a in ((d, left), right)

pub Apart-join : (k : ℕ) (us vs : List ℕ) → Apart k us → Apart k vs → Apart k (us ++ vs)
Apart-join k [] vs a b = b
Apart-join k (u ∷ us) vs (d, a) b = (d, Apart-join k us vs a b)

-- A new address in the middle.
pub Distinct-insert :
    (t : ℕ) (us vs : List ℕ) → Apart t (us ++ vs) → Distinct (us ++ vs) → Distinct (us ++ (t ∷ vs))
Distinct-insert t [] vs a d = (a, d)
Distinct-insert t (u ∷ us) vs (ne, a) (o, d) =
    let (left, right) = Apart-split u us vs o in
    (Apart-join u us (t ∷ vs) left ((λ e. ne (sym e)), right), Distinct-insert t us vs a d)

-- The address in the middle of a list of distinct ones is apart from the others.
pub Distinct-middle : (p : ℕ) (us vs : List ℕ) → Distinct (us ++ (p ∷ vs)) → Apart p us × Apart p vs
Distinct-middle p [] vs (o, d) = (tt, o)
Distinct-middle p (u ∷ us) vs (o, d) =
    let (left, (ne, right)) = Apart-split u us (p ∷ vs) o in
    let (before, after) = Distinct-middle p us vs d in (((λ e. ne (sym e)), before), after)

pub words-append : (n : Nodes) (us vs : List ℕ) → words n (us ++ vs) ≡ words n us ++ words n vs
words-append n [] vs = refl
words-append n (u ∷ us) vs = ap (λ r. (n u).word ∷ r) (words-append n us vs)

pub words_same :
    (m n : Nodes) (t : ℕ) (xs : List ℕ)
    → Apart t xs
    → ((y : ℕ) → t ≢ y → (m y).word ≡ (n y).word)
    → words m xs ≡ words n xs
words_same m n t [] a h = refl
words_same m n t (x ∷ xs) (d, a) h = rw (h x d, words_same m n t xs a h) refl
