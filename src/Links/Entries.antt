-- ===== src/Links/Entries.antt =====
-- What the operations on a directory do to the numbers of its entries.
use operating_systems_cs.Prelude.{
  ℕ, zero, suc, ◌+◌, ◌≤◌, ◌<◌, ◌≡◌, ◌≢◌, refl, sym, ap, inl, inr, Bool, true, false, not, ◌&&◌,
  ◌||◌, Bool-cases, arith, List, [], ◌∷◌, ◌==◌, eq_of_eqb, none, some, some_inj, Option-cases,
  update,
}
use operating_systems_cs.Links.{
  t_dir, Entry, dot, dotdot, same, lookup, add_entry, clear_entry, all_free, isdirempty,
}

-- Neither `.` nor `..`.
abbrev pub is_proper : List ℕ → Bool
is_proper name = not (same name dot || same name dotdot)

abbrev pub bit : Bool → ℕ
bit true = 1
bit false = 0

-- How many proper entries name the inode `i`.
abbrev pub count : ℕ → List Entry → ℕ
count i [] = 0
count i (e ∷ es) = bit (e.inum == i && is_proper e.name) + count i es

-- How many proper entries name a directory, and how many there are.
abbrev pub subdirs : (ℕ → ℕ) → List Entry → ℕ
subdirs type [] = 0
subdirs type (e ∷ es) =
    bit (not (e.inum == 0) && (is_proper e.name && type e.inum == t_dir)) + subdirs type es

abbrev pub names : List Entry → ℕ
names [] = 0
names (e ∷ es) = bit (not (e.inum == 0) && is_proper e.name) + names es

-- The first two entries are `.` and `..`.
abbrev pub Dotted : List Entry → Type 0
Dotted [] = ⊥
Dotted (e ∷ []) = ⊥
Dotted (e ∷ f ∷ es) = (e.inum ≢ 0) × (f.inum ≢ 0) × (e.name ≡ dot) × (f.name ≡ dotdot)

and_first : (a b : Bool) → (a && b) ≡ true → a ≡ true
and_first false b h = h
and_first true b h = refl

and_second : (a b : Bool) → (a && b) ≡ true → b ≡ true
and_second false b h = cc
and_second true b h = h

pub same-eq : (s t : List ℕ) → same s t ≡ true → s ≡ t
same-eq [] [] h = refl
same-eq [] (y ∷ ys) h = cc
same-eq (x ∷ xs) [] h = cc
same-eq (x ∷ xs) (y ∷ ys) h = elim (Bool-cases (x == y)) [
  | inl e ↦ let rest = same-eq xs ys (rw e at h) in rw (eq_of_eqb x y e, rest) refl
  | inr e ↦ let f : false ≡ true = rw e at h in cc
]

pub count-add :
    (i inum : ℕ) (name : List ℕ) (es : List Entry)
    → i ≢ 0
    → count i (add_entry name inum es) ≡ count i es + bit (inum == i && is_proper name)
unfolding add_entry
count-add i inum name [] ne = omega arith
count-add i inum name (e ∷ es) ne = elim (Bool-cases (e.inum == 0)) [
  | inl free ↦ let other : (e.inum == i) ≡ false = ground arith in rw (free, other) (omega arith)
  | inr used ↦ rw used (omega (arith, count-add i inum name es ne))
]

pub subdirs-add :
    (type : ℕ → ℕ) (inum : ℕ) (name : List ℕ) (es : List Entry)
    → inum ≢ 0
    → subdirs type (add_entry name inum es)
      ≡ subdirs type es + bit (is_proper name && type inum == t_dir)
unfolding add_entry
subdirs-add type inum name [] ne = let e : (inum == 0) ≡ false = ground arith in rw e (omega arith)
subdirs-add type inum name (e ∷ es) ne = elim (Bool-cases (e.inum == 0)) [
  | inl free ↦ let n : (inum == 0) ≡ false = ground arith in rw (free, n) (omega arith)
  | inr used ↦ rw (used, used) (omega (arith, subdirs-add type inum name es ne))
]

-- The entry at `k` is for `ip` and has the name.
abbrev pub At : List ℕ → List Entry → ℕ → ℕ → Type 0
At name [] ip k = ⊥
At name (e ∷ es) ip zero = (e.inum ≡ ip) × (ip ≢ 0) × (e.name ≡ name)
At name (e ∷ es) ip (suc k) = At name es ip k

pub lookup-At :
    (name : List ℕ) (es : List Entry) (ip k : ℕ) → lookup name es ≡ some (ip, k) → At name es ip k
unfolding lookup
lookup-At name [] ip k h = let q : none ≡ some (ip, k) = h in cc
lookup-At name (e ∷ es) ip k h = elim (Bool-cases (not (e.inum == 0) && same name e.name)) [
  | inl hit ↦
      let q = some_inj (let p : some (e.inum, 0) ≡ some (ip, k) = rw hit at h in p) in
      let fits = same-eq name e.name (and_second _ _ hit) in
      found k (ap (λ x. x.0) q) (ap (λ x. x.1) q) (and_first _ _ hit) (sym fits)
  | inr miss ↦ elim (Option-cases (lookup name es)) [
    | inl out ↦ let q : none ≡ some (ip, k) = rw (miss, out) at h in cc
    | inr ((j, n), later) ↦
        let q = some_inj (let p : some (j, suc n) ≡ some (ip, k) = rw (miss, later) at h in p) in
        later_at k (ap (λ x. x.0) q) (ap (λ x. x.1) q) (lookup-At name es j n later)
  ]
]
  where
    found :
        (k' : ℕ)
        → e.inum ≡ ip
        → 0 ≡ k'
        → not (e.inum == 0) ≡ true
        → e.name ≡ name
        → At name (e ∷ es) ip k'
    found zero a b c d = (a, ground arith, d)
    found (suc k') a b c d = absurd (omega arith)

    later_at : {j n : ℕ} (k' : ℕ) → j ≡ ip → suc n ≡ k' → At name es j n → At name (e ∷ es) ip k'
    later_at zero a b c = absurd (omega arith)
    later_at {j} {n} (suc k') a b c = let nk : n ≡ k' = omega arith in rw (← a, ← nk) c

pub At-pos : (name : List ℕ) (es : List Entry) (ip k : ℕ) → At name es ip k → ip ≢ 0
At-pos name [] ip k a = absurd a
At-pos name (e ∷ es) ip zero (a, b, c) = b
At-pos name (e ∷ es) ip (suc k) a = At-pos name es ip k a

-- Clearing an entry takes it away from the counts.
pub count-clear :
    (i : ℕ) (name : List ℕ) (es : List Entry) (ip k : ℕ)
    → i ≢ 0
    → At name es ip k
    → count i (clear_entry k es) + bit (ip == i && is_proper name) ≡ count i es
unfolding clear_entry
count-clear i name [] ip k ne a = absurd a
count-clear i name (e ∷ es) ip zero ne (q, nz, nm) =
    let zero_i : (0 == i) ≡ false = ground arith in rw (zero_i, q, nm) (omega arith)
count-clear i name (e ∷ es) ip (suc k) ne a = omega (arith, count-clear i name es ip k ne a)

pub subdirs-clear :
    (type : ℕ → ℕ) (name : List ℕ) (es : List Entry) (ip k : ℕ)
    → At name es ip k
    → subdirs type (clear_entry k es) + bit (is_proper name && type ip == t_dir) ≡ subdirs type es
unfolding clear_entry
subdirs-clear type name [] ip k a = absurd a
subdirs-clear type name (e ∷ es) ip zero (q, nz, nm) =
    let used : (ip == 0) ≡ false = ground arith in rw (q, nm, used) (omega arith)
subdirs-clear type name (e ∷ es) ip (suc k) a = omega (arith, subdirs-clear type name es ip k a)

pub names-clear : (k : ℕ) (es : List Entry) → names (clear_entry k es) ≤ names es
unfolding clear_entry
names-clear k [] = omega arith
names-clear zero (e ∷ es) = omega arith
names-clear (suc k) (e ∷ es) = omega (arith, names-clear k es)

pub names-At :
    (name : List ℕ) (es : List Entry) (ip k : ℕ)
    → is_proper name ≡ true
    → At name es ip k
    → 0 < names es
names-At name [] ip k p a = absurd a
names-At name (e ∷ es) ip zero p (q, nz, nm) =
    let used : (ip == 0) ≡ false = ground arith in rw (q, nm, used, p) (omega arith)
names-At name (e ∷ es) ip (suc k) p a = omega (arith, names-At name es ip k p a)

pub Dotted-clear :
    (name : List ℕ) (es : List Entry) (ip k : ℕ)
    → is_proper name ≡ true
    → At name es ip k
    → Dotted es
    → Dotted (clear_entry k es)
unfolding clear_entry
Dotted-clear name [] ip k p a d = absurd d
Dotted-clear name (e ∷ []) ip k p a d = absurd d
Dotted-clear name (e ∷ f ∷ es) ip zero p (q, nz, nm) (x, y, ed, fd) =
    let r : false ≡ true = rw (← nm, ed) at p in cc
Dotted-clear name (e ∷ f ∷ es) ip (suc zero) p (q, nz, nm) (x, y, ed, fd) =
    let r : false ≡ true = rw (← nm, fd) at p in cc
Dotted-clear name (e ∷ f ∷ es) ip (suc (suc k)) p a d = d

pub Dotted-add :
    (name : List ℕ) (inum : ℕ) (es : List Entry) → Dotted es → Dotted (add_entry name inum es)
unfolding add_entry
Dotted-add name inum [] d = absurd d
Dotted-add name inum (e ∷ []) d = absurd d
Dotted-add name inum (e ∷ f ∷ es) (x, y, ed, fd) =
    let a : (e.inum == 0) ≡ false = ground arith in
    let b : (f.inum == 0) ≡ false = ground arith in rw (a, b) (x, y, ed, fd)

all_free-names : (es : List Entry) → all_free es ≡ true → names es ≡ 0
all_free-names [] h = refl
all_free-names (e ∷ es) h =
    let a : (e.inum == 0) ≡ true = and_first _ _ h in
    rw a (omega (arith, all_free-names es (and_second _ _ h)))

-- A directory that `isdirempty` passes has no proper entry.
pub isdirempty-names : (es : List Entry) → Dotted es → isdirempty es ≡ true → names es ≡ 0
isdirempty-names [] d h = absurd d
isdirempty-names (e ∷ []) d h = absurd d
isdirempty-names (e ∷ f ∷ es) (x, y, ed, fd) h =
    let a : (e.inum == 0) ≡ false = ground arith in
    let b : (f.inum == 0) ≡ false = ground arith in
    rw (ed, fd, a, b) (omega (arith, all_free-names es h))

-- A name that is not there is proper, since `.` and `..` are.
pub absent-is_proper :
    (name : List ℕ) (es : List Entry) → Dotted es → lookup name es ≡ none → is_proper name ≡ true
unfolding lookup
absent-is_proper name [] d h = absurd d
absent-is_proper name (e ∷ []) d h = absurd d
absent-is_proper name (e ∷ f ∷ es) (x, y, ed, fd) h =
    let a : (e.inum == 0) ≡ false = ground arith in
    let b : (f.inum == 0) ≡ false = ground arith in
    elim (Bool-cases (same name dot)) [
      | inl here ↦ let q = rw (a, ed, here) at h in let r : some (e.inum, 0) ≡ none = q in cc
      | inr no_dot ↦ elim (Bool-cases (same name dotdot)) [
        | inl here ↦ let q : some (f.inum, 1) ≡ none = rw (a, ed, no_dot, b, fd, here) at h in cc
        | inr no_dots ↦ rw (no_dot, no_dots) refl
      ]
    ]

pub names-count : (i : ℕ) (es : List Entry) → i ≢ 0 → names es ≡ 0 → count i es ≡ 0
names-count i [] ne h = refl
names-count i (e ∷ es) ne h = ground (arith, names-count i es ne)

pub names-subdirs : (type : ℕ → ℕ) (es : List Entry) → names es ≡ 0 → subdirs type es ≡ 0
names-subdirs type [] h = refl
names-subdirs type (e ∷ es) h = ground (arith, names-subdirs type es)

-- The type of an inode that no entry names does not matter.
pub subdirs-type :
    (type : ℕ → ℕ) (i v : ℕ) (es : List Entry)
    → i ≢ 0
    → count i es ≡ 0
    → subdirs (update type i v) es ≡ subdirs type es
subdirs-type type i v [] ne h = refl
subdirs-type type i v (e ∷ es) ne h = ground (arith, subdirs-type type i v es ne)
