-- ===== src/Bio/Cache.antt =====
-- No block is cached twice.
use operating_systems_cs.Prelude.{
  ℕ, suc, ◌+◌, ◌≤◌, ◌≡◌, ◌≢◌, refl, sym, ap, ◌∙◌, ◌⊎◌, inl, inr, true, false, ◌&&◌, [], ◌∷◌, arith,
  ◌==◌, if◌then◌else◌, Bool-cases, Option, none, some, Option-cases, some_inj, length,
}
use operating_systems_cs.Bio.{
  Buf, Cache, no_dev, caches, Lookup, absent, in_use, found, behind, lookup, idle, recycled,
  recycle, got, sleeps, panics, bget,
}

-- How many buffers are for a block.
abbrev pub copies : ℕ → ℕ → Cache → ℕ
copies dev blockno [] = 0
copies dev blockno (x ∷ xs) = (if caches dev blockno x then 1 else 0) + copies dev blockno xs

-- A result of the two loops: the cache has as many buffers as before, of any block at most as many, and
-- of the block that is looked for at most one more, `n`.
record Took (dev blockno n : ℕ) (c c' : Cache) (b : Buf) : Type 0 where
  size : length c' ≡ length c
  this : copies dev blockno c' ≡ n
  others :
      (dev' blockno' : ℕ)
      → (copies dev' blockno' c' ≤ copies dev' blockno' c) ⊎ ((dev' ≡ dev) × (blockno' ≡ blockno))
  names : caches dev blockno b ≡ true
  held : b.busy ≡ true

behind_found :
    (x : Buf) (l : Lookup) (c' : Cache) (b : Buf)
    → behind x l ≡ found c' b
    → (c1 : Cache) × (l ≡ found c1 b) × (c' ≡ x ∷ c1)
behind_found x absent c' b e = cc
behind_found x in_use c' b e = cc
behind_found x (found c1 b1) c' b e = (c1, cc, cc)

-- The two ways in which the first loop finds a buffer.
pub lookup_cases :
    (dev blockno : ℕ) (x : Buf) (xs c' : Cache) (b : Buf)
    → lookup dev blockno (x ∷ xs) ≡ found c' b
    → ((caches dev blockno x ≡ true)
        × (c' ≡ record x { busy = true } ∷ xs)
        × (b ≡ record x { busy = true }))
      ⊎ ((caches dev blockno x ≡ false)
          × ((c1 : Cache) × (lookup dev blockno xs ≡ found c1 b) × (c' ≡ x ∷ c1)))
unfolding lookup
lookup_cases dev blockno x xs c' b e = elim (Bool-cases (caches dev blockno x)) [
  | inl hit ↦ elim (Bool-cases x.busy) [
    | inl busy ↦ let e' : in_use ≡ found c' b = rw (hit, busy) at e in cc
    | inr free ↦
        let e' : found (record x { busy = true } ∷ xs) (record x { busy = true }) ≡ found c' b =
          rw (hit, free) at e in
        inl (hit, cc, cc)
  ]
  | inr miss ↦
      let e' : behind x (lookup dev blockno xs) ≡ found c' b = rw miss at e in
      inr (miss, behind_found x (lookup dev blockno xs) c' b e')
]

behind_absent : (x : Buf) (l : Lookup) → behind x l ≡ absent → l ≡ absent
behind_absent x absent e = refl
behind_absent x in_use e = cc
behind_absent x (found c1 b1) e = cc

widen :
    (x : Buf) (xs c1 : Cache) {dev blockno : ℕ} (dev' blockno' : ℕ)
    → (copies dev' blockno' c1 ≤ copies dev' blockno' xs) ⊎ ((dev' ≡ dev) × (blockno' ≡ blockno))
    → (copies dev' blockno' (x ∷ c1) ≤ copies dev' blockno' (x ∷ xs))
      ⊎ ((dev' ≡ dev) × (blockno' ≡ blockno))
widen x xs c1 dev' blockno' (inl le) = inl (omega arith)
widen x xs c1 dev' blockno' (inr same) = inr same

pub bget_cases :
    (dev blockno : ℕ) (c c' : Cache) (b : Buf)
    → bget dev blockno c ≡ got c' b
    → (lookup dev blockno c ≡ found c' b)
      ⊎ ((lookup dev blockno c ≡ absent) × (recycle dev blockno c ≡ some (c', b)))
unfolding bget
bget_cases dev blockno c c' b e = cases (lookup dev blockno c) refl
  where
    recycles :
        lookup dev blockno c ≡ absent
        → (o : Option (Cache × Buf)) → recycle dev blockno c ≡ o
        → recycle dev blockno c ≡ some (c', b)
    recycles miss none eo = let e' : panics ≡ got c' b = rw (miss, eo, bget) at e in cc
    recycles miss (some (c1, b1)) eo =
        let e' : got c1 b1 ≡ got c' b = rw (miss, eo, bget) at e in
        let ec : c1 ≡ c' = cc in let eb : b1 ≡ b = cc in eo ∙ rw (ec, eb)

    cases :
        (l : Lookup)
        → lookup dev blockno c ≡ l
        → (lookup dev blockno c ≡ found c' b)
          ⊎ ((lookup dev blockno c ≡ absent) × (recycle dev blockno c ≡ some (c', b)))
    cases absent el = inr (el, recycles el (recycle dev blockno c) refl)
    cases in_use el = let e' : sleeps ≡ got c' b = rw (el, bget) at e in cc
    cases (found c1 b1) el =
        let e' : got c1 b1 ≡ got c' b = rw (el, bget) at e in
        let ec : c1 ≡ c' = cc in let eb : b1 ≡ b = cc in inl (el ∙ rw (ec, eb))

lookup_found :
    (dev blockno : ℕ) (c c' : Cache) (b : Buf)
    → lookup dev blockno c ≡ found c' b
    → Took dev blockno (copies dev blockno c) c c' b
unfolding lookup
lookup_found dev blockno [] c' b e = cc
lookup_found dev blockno (x ∷ xs) c' b e = elim (lookup_cases dev blockno x xs c' b e) [
  | inl (hit, ec, eb) ↦
      rw (ec, eb)
        (record {
          size = refl;
          this = refl;
          others = λ dev' blockno'. inl (omega arith);
          names = hit;
          held = refl;
        })
  | inr (miss, later) ↦
      let (c1, ih, ec) = later in
      let t = lookup_found dev blockno xs c1 b ih in
      rw ec (record {
        size = ap suc t.size;
        this = omega (arith, t.this);
        others = λ dev' blockno'. widen x xs c1 dev' blockno' (t.others dev' blockno');
        names = t.names;
        held = t.held;
      })
]

pub lookup_absent :
    (dev blockno : ℕ) (c : Cache) → lookup dev blockno c ≡ absent → copies dev blockno c ≡ 0
unfolding lookup
lookup_absent dev blockno [] e = refl
lookup_absent dev blockno (x ∷ xs) e = elim (Bool-cases (caches dev blockno x)) [
  | inl hit ↦ elim (Bool-cases x.busy) [
    | inl busy ↦ let e' : in_use ≡ absent = rw (hit, busy) at e in cc
    | inr free ↦
        let e' : found (record x { busy = true } ∷ xs) (record x { busy = true }) ≡ absent =
          rw (hit, free) at e in
        cc
  ]
  | inr miss ↦
      let e' : behind x (lookup dev blockno xs) ≡ absent = rw miss at e in
      rw miss
        (omega (arith, lookup_absent dev blockno xs (behind_absent x (lookup dev blockno xs) e')))
]

pub recycle_cases :
    (dev blockno : ℕ) (x : Buf) (xs c' : Cache) (b : Buf)
    → recycle dev blockno (x ∷ xs) ≡ some (c', b)
    → ((c1 : Cache) × (recycle dev blockno xs ≡ some (c1, b)) × (c' ≡ x ∷ c1))
      ⊎ ((idle x ≡ true) × (c' ≡ recycled dev blockno x ∷ xs) × (b ≡ recycled dev blockno x))
unfolding recycle
recycle_cases dev blockno x xs c' b e = elim (Option-cases (recycle dev blockno xs)) [
  | inr (r, later) ↦
      let e' : ◌≡◌ {A = Option (Cache × Buf)} (some (x ∷ r.0, r.1)) (some (c', b)) =
        rw (later, recycle) at e in
      let p = some_inj e' in
      inl (r.0, later ∙ ap (λ z. some (r.0, z)) (ap (λ z. z.1) p), sym (ap (λ z. z.0) p))
  | inl last ↦ elim (Bool-cases (idle x)) [
    | inl free ↦
        let e' : ◌≡◌ {A = Option (Cache × Buf)}
            (some (recycled dev blockno x ∷ xs, recycled dev blockno x)) (some (c', b)) =
          rw (last, free, recycle) at e in
        let p = some_inj e' in inr (free, sym (ap (λ z. z.0) p), sym (ap (λ z. z.1) p))
    | inr held ↦
        let e' : ◌≡◌ {A = Option (Cache × Buf)} none (some (c', b)) =
          rw (last, held, recycle) at e in
        cc
  ]
]

recycle-Took :
    (dev blockno : ℕ) (c c' : Cache) (b : Buf)
    → recycle dev blockno c ≡ some (c', b)
    → copies dev blockno c ≡ 0
    → Took dev blockno 1 c c' b
unfolding recycle
recycle-Took dev blockno [] c' b e none_yet = cc
recycle-Took dev blockno (x ∷ xs) c' b e none_yet = elim (recycle_cases dev blockno x xs c' b e) [
  | inl (c1, ih, ec) ↦
      let t = recycle-Took dev blockno xs c1 b ih (omega arith) in
      rw ec (record {
        size = ap suc t.size;
        this = omega (arith, t.this);
        others = λ dev' blockno'. widen x xs c1 dev' blockno' (t.others dev' blockno');
        names = t.names;
        held = t.held;
      })
  | inr (free, ec, eb) ↦
      let self : caches dev blockno (recycled dev blockno x) ≡ true = ground arith in
      rw (ec, eb)
        (record {
          size = refl;
          this = rw self (omega arith);
          others = λ dev' blockno'. elim (Bool-cases ((dev == dev') && (blockno == blockno'))) [
            | inl same ↦ inr (ground arith, ground arith)
            | inr other ↦ inl (rw other (omega arith))
          ];
          names = self;
          held = refl;
        })
]

-- At most one buffer for each block of a device in use.
pub record Unique (c : Cache) : Type 0 where
  pub once : (dev blockno : ℕ) → dev ≢ no_dev → copies dev blockno c ≤ 1

Took-Unique :
    (dev blockno n : ℕ) (c c' : Cache) (b : Buf)
    → Took dev blockno n c c' b
    → n ≤ 1
    → Unique c
    → Unique c'
Took-Unique dev blockno n c c' b t h u = record {
  once = λ dev' blockno' ne. elim (t.others dev' blockno') [
    | inl le ↦ omega (arith, u.once dev' blockno' ne)
    | inr (ed, eb) ↦ rw (ed, eb) (omega (arith, t.this))
  ];
}

-- `bget` of a block: if it returns, the buffer is busy and for that block, the cache has as many buffers
-- as before, and still no block of a device in use is cached twice.
pub bget-Unique :
    (dev blockno : ℕ) (c c' : Cache) (b : Buf)
    → dev ≢ no_dev
    → Unique c
    → bget dev blockno c ≡ got c' b
    → Unique c' × (length c' ≡ length c) × (b.busy ≡ true) × (b.dev ≡ dev) × (b.blockno ≡ blockno)
bget-Unique dev blockno c c' b ne u e = elim (bget_cases dev blockno c c' b e) [
  | inl hit ↦
      let t = lookup_found dev blockno c c' b hit in
      (
        Took-Unique dev blockno (copies dev blockno c) c c' b t (u.once dev blockno ne) u,
        t.size,
        t.held,
        ground (arith, t.names),
        ground (arith, t.names),
      )
  | inr (miss, taken) ↦
      let t = recycle-Took dev blockno c c' b taken (lookup_absent dev blockno c miss) in
      (
        Took-Unique dev blockno 1 c c' b t (omega arith) u,
        t.size,
        t.held,
        ground (arith, t.names),
        ground (arith, t.names),
      )
]
