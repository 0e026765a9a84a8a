-- ===== src/Sort/Half.antt =====
-- The nodes in the middle of linking.
use operating_systems_cs.Prelude.{
  ℕ, ◌≡◌, refl, ap, ◌≢◌, inl, inr, true, false, Bool-cases, arith, List, [], ◌∷◌, eq_of_eqb, ◌==◌,
  Option, some, update_self,
}
use operating_systems_cs.Sort.{Nodes, create_node, set_next, set_prev}
use operating_systems_cs.Sort.Segments.{Apart, Agree}

-- The nodes when the new node points both ways and `c` points back to it.
abbrev pub half_linked : List ℕ → ℕ → ℕ → Nodes → Nodes
half_linked s t c n =
    let n1 = set_next t (some c) (create_node t s n) in
    set_prev c (some t) (set_prev t (n1 c).prev n1)

pub half_other : (s : List ℕ) (t c y : ℕ) (n : Nodes) → t ≢ y → c ≢ y → half_linked s t c n y ≡ n y
half_other s t c y n ty cy = ground arith

pub half_new :
    (s : List ℕ) (t c : ℕ) (n : Nodes)
    → t ≢ c
    → half_linked s t c n t ≡ record { word = s; next = some c; prev = (n c).prev }
half_new s t c n tc =
    let self : (t == t) ≡ true = ground arith in
    let one : (c == t) ≡ false = ground arith in
    let two : (t == c) ≡ false = ground arith in rw (self, one, two) refl

pub half_after :
    (s : List ℕ) (t c : ℕ) (n : Nodes)
    → t ≢ c
    → half_linked s t c n c ≡ record (n c) { prev = some t }
half_after s t c n tc =
    let self : (c == c) ≡ true = ground arith in
    let two : (t == c) ≡ false = ground arith in rw (self, two) refl

pub half-Agree :
    (s : List ℕ) (t c : ℕ) (n : Nodes) (xs : List ℕ)
    → Apart t xs
    → Apart c xs
    → Agree (half_linked s t c n) n xs
half-Agree s t c n [] at ac = tt
half-Agree s t c n (x ∷ xs) (tx, at) (cx, ac) =
    (half_other s t c x n tx cx, half-Agree s t c n xs at ac)

pub half-word :
    (s : List ℕ) (t c y : ℕ) (n : Nodes) → t ≢ c → t ≢ y → (half_linked s t c n y).word ≡ (n y).word
half-word s t c y n tc ty = elim (Bool-cases (c == y)) [
  | inl same ↦ rw (← eq_of_eqb c y same) (ap (λ x. x.word) (half_after s t c n tc))
  | inr other ↦ ap (λ x. x.word) (half_other s t c y n ty (λ e. ground arith))
]

pub set_next-word : (m : Nodes) (p y : ℕ) (q : Option ℕ) → (set_next p q m y).word ≡ (m y).word
set_next-word m p y q = elim (Bool-cases (p == y)) [
  | inl same ↦
      rw (← eq_of_eqb p y same) (ap (λ x. x.word) (update_self m p (record (m p) { next = q })))
  | inr other ↦ rw other refl
]
