-- ===== src/Shell/Progress.antt =====
-- The parser ends: its bounds are never met, whatever the line.
use operating_systems_cs.Prelude.{
  ℕ, suc, ◌≤◌, ◌<◌, ◌≡◌, refl, ap, ◌⊎◌, inl, inr, Bool, true, false, Bool-cases, arith, List, [],
  ◌∷◌, length, has, ◌==◌,
}
use operating_systems_cs.Shell.Monad.{M, Parsed, out_of_fuel, panics, done, ◌>>=◌}
use operating_systems_cs.Shell.Lexer.{token_at-cons}
use operating_systems_cs.Shell.{
  whitespace, skip_white, in_word, after_word, after_gt, is_single, token_at, gettoken, starts,
  peek,
}

-- The bound is not met, and at most `k` characters are left.
abbrev pub Within : {A : Type 0} → ℕ → Parsed A → Type 0
Within k out_of_fuel = ⊥
Within k (panics p) = Unit {0}
Within k (done a r) = length r ≤ k

pub bind-Within :
    {A B : Type 0} (k j : ℕ) (m : M A) (f : A → M B) (s : List ℕ)
    → Within k (m s)
    → ((a : A) (r : List ℕ) → length r ≤ k → Within j (f a r))
    → Within j ((m >>= f) s)
bind-Within k j m f s h g = go (m s) h
  where
    go :
        (x : Parsed _)
        → Within k x
        → Within j (elim x [ out_of_fuel ↦ out_of_fuel | panics p ↦ panics p | done a r ↦ f a r ])
    go out_of_fuel h = h
    go (panics p) h = tt
    go (done a r) h = g a r h

skip-le : (s : List ℕ) → length (skip_white s) ≤ length s
unfolding skip_white
skip-le [] = omega arith
skip-le (c ∷ cs) = ground (arith, skip-le cs)

skip-white : (s : List ℕ) (c : ℕ) (cs : List ℕ) → skip_white s ≡ c ∷ cs → has c whitespace ≡ false
unfolding skip_white
skip-white [] c cs e = cc
skip-white (d ∷ ds) c cs e = ground (arith, skip-white ds c cs)

after_word-le : (s : List ℕ) → length (after_word s) ≤ length s
unfolding after_word
after_word-le [] = omega arith
after_word-le (c ∷ cs) = ground (arith, after_word-le cs)

after_word-lt :
    (c : ℕ) (cs : List ℕ) → in_word c ≡ true → length (after_word (c ∷ cs)) < length (c ∷ cs)
unfolding after_word
after_word-lt c cs w = rw w (omega (arith, after_word-le cs))

after_gt-le : (cs : List ℕ) → length (after_gt cs).1 ≤ length cs
after_gt-le [] = omega arith
after_gt-le (d ∷ cs) = ground arith

-- A token takes at least one character.
token_at-lt :
    (c : ℕ) (cs : List ℕ)
    → has c whitespace ≡ false
    → length (token_at (c ∷ cs)).1 < length (c ∷ cs)
token_at-lt c cs h = elim (Bool-cases (is_single c)) [
  | inl e ↦ unfold token_at in rw e (omega arith)
  | inr e ↦ elim (Bool-cases (c == b'>')) [
    | inl g ↦ unfold token_at in rw (e, g) (omega (arith, after_gt-le cs))
    | inr g ↦ rw (token_at-cons c cs e g) (after_word-lt c cs (ground arith))
  ]
]

-- `gettoken` gives the token 0 at the end of the line, and is shorter else.
gettoken_cases :
    (s : List ℕ)
    → (t : ℕ × List ℕ) × (r : List ℕ) × (gettoken s ≡ done t r)
      × (length r ≤ length s)
      × ((t.0 ≡ 0) ⊎ (length r < length s))
unfolding gettoken
gettoken_cases s = go (skip_white s) refl
  where
    go :
        (x : List ℕ)
        → skip_white s ≡ x
        → (t : ℕ × List ℕ) × (r : List ℕ) × (gettoken s ≡ done t r)
          × (length r ≤ length s)
          × ((t.0 ≡ 0) ⊎ (length r < length s))
    go [] e = ((0, []), [], rw e refl, omega arith, inl refl)
    go (c ∷ cs) e =
        let (t, rest) = token_at (c ∷ cs) in
        let less = token_at-lt c cs (skip-white s c cs e) in
        let more = skip-le rest in
        let all : suc (length cs) ≤ length s = omega (arith, skip-le s, ap length e) in
        (t, skip_white rest, rw e refl, omega arith, inr (omega arith))

-- A `peek` that fits leaves the line at a character that is not white.
pub peek-Within :
    {B : Type 0} (j : ℕ) (toks s : List ℕ) (f : Bool → M B)
    → ((r : List ℕ) → length r ≤ length s → Within j (f false r))
    → ((c : ℕ) (cs : List ℕ)
        → has c whitespace ≡ false
        → length (c ∷ cs) ≤ length s
        → Within j (f true (c ∷ cs)))
    → Within j ((peek toks >>= f) s)
unfolding peek
peek-Within j toks s f miss hit = go (skip_white s) refl
  where
    go : (x : List ℕ) → skip_white s ≡ x → Within j (f (starts toks (skip_white s)) (skip_white s))
    go [] e = rw e (miss [] (omega arith))
    go (c ∷ cs) e =
        let shorter : length (c ∷ cs) ≤ length s = omega (arith, skip-le s, ap length e) in
        elim (Bool-cases (has c toks)) [
          | inl fits ↦ rw (e, fits) (hit c cs (skip-white s c cs e) shorter)
          | inr other ↦ rw (e, other) (miss (c ∷ cs) shorter)
        ]

pub gettoken-Within :
    {B : Type 0} (j c : ℕ) (cs : List ℕ) (f : ℕ × List ℕ → M B)
    → has c whitespace ≡ false
    → ((t : ℕ × List ℕ) (r : List ℕ) → length r < length (c ∷ cs) → Within j (f t r))
    → Within j ((gettoken >>= f) (c ∷ cs))
unfolding gettoken skip_white
gettoken-Within j c cs f h g =
    let less = token_at-lt c cs h in
    let rest = (token_at (c ∷ cs)).1 in
    rw h (g (token_at (c ∷ cs)).0 (skip_white rest) (omega (arith, skip-le rest)))

pub any_token-Within :
    {B : Type 0} (j : ℕ) (s : List ℕ) (f : ℕ × List ℕ → M B)
    → ((t : ℕ × List ℕ) (r : List ℕ)
        → length r ≤ length s
        → (t.0 ≡ 0) ⊎ (length r < length s)
        → Within j (f t r))
    → Within j ((gettoken >>= f) s)
any_token-Within j s f g =
    let (t, r, e, le, less) = gettoken_cases s in rw (◌>>=◌, e) (g t r le less)

pub Within-le : {A : Type 0} (k j : ℕ) (x : Parsed A) → k ≤ j → Within k x → Within j x
Within-le k j out_of_fuel h w = w
Within-le k j (panics p) h w = tt
Within-le k j (done a r) h w = omega arith
