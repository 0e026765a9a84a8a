-- ===== src/Grep/Language.antt =====
-- The matcher finds what the language of the pattern says.
use operating_systems_cs.Prelude.{
  ℕ, ◌≡◌, refl, sym, ap, ◌∙◌, Bool, true, false, ◌&&◌, ◌||◌, arith, Bool-cases, List, [], ◌∷◌, ◌++◌,
  ◌==◌, if◌then◌else◌, inl, inr,
}
use operating_systems_cs.Grep.{star_char, dollar, dot, at_end, one_char, matchstar, matchhere}

-- A pattern's parts: one character, any number of one character, and the end of the text.
pub data Item : Type 0 where
  one : ℕ → Item
  star : ℕ → Item
  text_end : Item

pub items : List ℕ → List Item
items [] = []
items (c ∷ []) = (if c == dollar then text_end else one c) ∷ []
items (c ∷ d ∷ re) = if d == star_char then star c ∷ items re else one c ∷ items (d ∷ re)

-- The character `c` of a pattern stands for `x`.
abbrev pub stands_for : ℕ → ℕ → Bool
stands_for c x = c == dot || c == x

-- The parts spell `u`, where the text goes on with `v`.
pub data Spells : List Item → List ℕ → List ℕ → Type 0 where
  nothing : {v : List ℕ} → Spells [] [] v
  ends : {is : List Item} → Spells is [] [] → Spells (text_end ∷ is) [] []
  spell_one :
      {c x : ℕ} {is : List Item} {u v : List ℕ}
      → stands_for c x ≡ true
      → Spells is u v
      → Spells (one c ∷ is) (x ∷ u) v
  star_none : {c : ℕ} {is : List Item} {u v : List ℕ} → Spells is u v → Spells (star c ∷ is) u v
  star_more :
      {c x : ℕ} {is : List Item} {u v : List ℕ}
      → stands_for c x ≡ true
      → Spells (star c ∷ is) u v
      → Spells (star c ∷ is) (x ∷ u) v

-- A beginning of the text is spelled.
pub record Begins (is : List Item) (t : List ℕ) : Type 0 where
  pub spelled : List ℕ
  pub left : List ℕ
  pub splits : spelled ++ left ≡ t
  pub spells : Spells is spelled left

-- What the matcher does on the parts.
pub accept : List Item → List ℕ → Bool
unfolding matchstar
accept [] t = true
accept (one c ∷ is) t = one_char c (λ r. accept is r) t
accept (star c ∷ is) t = matchstar c (λ r. accept is r) t
accept (text_end ∷ is) t = at_end t && accept is t

matchstar_cong :
    (c : ℕ) (f g : List ℕ → Bool) (t : List ℕ)
    → ((r : List ℕ) → f r ≡ g r)
    → matchstar c f t ≡ matchstar c g t
unfolding matchstar
matchstar_cong c f g [] h = h []
matchstar_cong c f g (x ∷ xs) h = rw (h (x ∷ xs), matchstar_cong c f g xs h) refl

one_char_cong :
    (c : ℕ) (f g : List ℕ → Bool) (t : List ℕ)
    → ((r : List ℕ) → f r ≡ g r)
    → one_char c f t ≡ one_char c g t
one_char_cong c f g [] h = refl
one_char_cong c f g (x ∷ xs) h = rw (h xs) refl

last_end : (t : List ℕ) → at_end t ≡ (at_end t && true)
last_end [] = refl
last_end (x ∷ xs) = refl

pub matchhere-accept : (re t : List ℕ) → matchhere re t ≡ accept (items re) t
unfolding matchhere accept items
matchhere-accept [] t = refl
matchhere-accept (c ∷ []) t = elim (Bool-cases (c == dollar)) [
  | inl e ↦ rw e (last_end t)
  | inr e ↦ rw e refl
]
matchhere-accept (c ∷ d ∷ re) t = elim (Bool-cases (d == star_char)) [
  | inl e ↦ rw e (matchstar_cong c _ _ t (λ r. matchhere-accept re r))
  | inr e ↦ rw e (one_char_cong c _ _ t (λ r. matchhere-accept (d ∷ re) r))
]

and_first : (a b : Bool) → (a && b) ≡ true → a ≡ true
and_first false b h = h
and_first true b h = refl

and_second : (a b : Bool) → (a && b) ≡ true → b ≡ true
and_second false b h = absurd (ground arith)
and_second true b h = h

pub or_second : (a b : Bool) → (a || b) ≡ true → a ≡ false → b ≡ true
or_second false b h e = h
or_second true b h e = absurd (ground arith)

same_char : (c x : ℕ) → (x == c || c == dot) ≡ stands_for c x
same_char c x = ground arith

-- One more character in front of what is spelled.
accept-star :
    (c : ℕ) (is : List Item) (t : List ℕ)
    → ((r : List ℕ) → accept is r ≡ true → Begins is r)
    → matchstar c (λ r. accept is r) t ≡ true
    → Begins (star c ∷ is) t
unfolding matchstar
accept-star c is [] sound h =
    let b = sound [] h in
    record { spelled = b.spelled; left = b.left; splits = b.splits; spells = star_none b.spells }
accept-star c is (x ∷ xs) sound h = elim (Bool-cases (accept is (x ∷ xs))) [
  | inl e ↦
      let b = sound (x ∷ xs) e in
      record { spelled = b.spelled; left = b.left; splits = b.splits; spells = star_none b.spells }
  | inr e ↦
      let rest = or_second _ _ h e in
      let b = accept-star c is xs sound (and_second _ _ rest) in
      record {
        spelled = x ∷ b.spelled;
        left = b.left;
        splits = ap (λ r. x ∷ r) b.splits;
        spells = star_more (sym (same_char c x) ∙ and_first _ _ rest) b.spells;
      }
]

nothing_left : (is : List Item) (u v : List ℕ) → u ++ v ≡ [] → Spells is u v → Spells is [] []
nothing_left is [] [] e s = s
nothing_left is [] (y ∷ v) e s = absurd (ground arith)
nothing_left is (x ∷ u) v e s = absurd (ground arith)

pub accept-Begins : (is : List Item) (t : List ℕ) → accept is t ≡ true → Begins is t
unfolding accept
accept-Begins [] t h = record { spelled = []; left = t; splits = refl; spells = nothing }
accept-Begins (one c ∷ is) [] h = absurd (ground arith)
accept-Begins (one c ∷ is) (x ∷ xs) h =
    let b = accept-Begins is xs (and_second _ _ h) in
    record {
      spelled = x ∷ b.spelled;
      left = b.left;
      splits = ap (λ r. x ∷ r) b.splits;
      spells = spell_one (and_first _ _ h) b.spells;
    }
accept-Begins (star c ∷ is) t h = accept-star c is t (λ r. accept-Begins is r) h
accept-Begins (text_end ∷ is) [] h =
    let b = accept-Begins is [] h in
    record {
      spelled = [];
      left = [];
      splits = refl;
      spells = ends (nothing_left is b.spelled b.left b.splits b.spells);
    }
accept-Begins (text_end ∷ is) (x ∷ xs) h = absurd (ground arith)

star_starts : (c : ℕ) (f : List ℕ → Bool) (t : List ℕ) → f t ≡ true → matchstar c f t ≡ true
unfolding matchstar
star_starts c f [] e = e
star_starts c f (x ∷ xs) e = rw e refl

star_goes_on :
    (c x : ℕ) (f : List ℕ → Bool) (t : List ℕ)
    → stands_for c x ≡ true
    → matchstar c f t ≡ true
    → matchstar c f (x ∷ t) ≡ true
unfolding matchstar
star_goes_on c x f t e h = elim (Bool-cases (f (x ∷ t))) [
  | inl b ↦ rw b refl
  | inr b ↦ rw (b, same_char c x, e) h
]

pub spelled-accept : (is : List Item) (u v : List ℕ) → Spells is u v → accept is (u ++ v) ≡ true
unfolding accept
spelled-accept is u v nothing = refl
spelled-accept is u v (ends s) = spelled-accept _ [] [] s
spelled-accept is u v (spell_one e s) = rw e (spelled-accept _ _ v s)
spelled-accept is u v (star_none {c = c} {is = ps} s) =
    star_starts c (λ r. accept ps r) (u ++ v) (spelled-accept _ u v s)
spelled-accept is u v (star_more {c = c} {x = x} {is = ps} {u = u'} e s) =
    star_goes_on c x (λ r. accept ps r) (u' ++ v) e (spelled-accept _ u' v s)
