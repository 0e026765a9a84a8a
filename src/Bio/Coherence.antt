-- ===== src/Bio/Coherence.antt =====
-- What `bread` returns is what is on the disk, or newer.
use operating_systems_cs.Prelude.{
  ℕ, ◌≡◌, refl, sym, ap, ◌∙◌, ◌⊎◌, inl, inr, Bool, true, false, [], ◌∷◌, arith, ◌==◌, if◌then◌else◌,
  Bool-cases, some,
}
use operating_systems_cs.Bio.{
  Buf, Cache, found, lookup, recycle, Got, got, sleeps, panics, bget, put_back, Disk, iderw, bread,
  unlink, brelse,
}
use operating_systems_cs.Bio.Cache.{copies, lookup_cases, recycle_cases, bget_cases}

-- A buffer that is valid and clean holds what is on the disk.
abbrev pub Clean : Disk → Buf → Type 0
Clean d b = b.valid ≡ true → b.dirty ≡ false → b.bytes ≡ d b.dev b.blockno

abbrev pub Coherent : Disk → Cache → Type 0
Coherent d [] = Unit {0}
Coherent d (x ∷ xs) = Clean d x × Coherent d xs

lookup-Coherent :
    (d : Disk) (dev blockno : ℕ) (c c' : Cache) (b : Buf)
    → lookup dev blockno c ≡ found c' b
    → Coherent d c
    → Coherent d c' × Clean d b
unfolding lookup
lookup-Coherent d dev blockno [] c' b e h = cc
lookup-Coherent d dev blockno (x ∷ xs) c' b e (hx, hs) =
    elim (lookup_cases dev blockno x xs c' b e) [
      | inl (hit, ec, eb) ↦ rw (ec, eb) ((hx, hs), hx)
      | inr (miss, later) ↦
          let (c1, ih, ec) = later in
          let r = lookup-Coherent d dev blockno xs c1 b ih hs in rw ec ((hx, r.0), r.1)
    ]

recycle-Coherent :
    (d : Disk) (dev blockno : ℕ) (c c' : Cache) (b : Buf)
    → recycle dev blockno c ≡ some (c', b)
    → Coherent d c
    → Coherent d c' × Clean d b
unfolding recycle
recycle-Coherent d dev blockno [] c' b e h = cc
recycle-Coherent d dev blockno (x ∷ xs) c' b e (hx, hs) =
    elim (recycle_cases dev blockno x xs c' b e) [
      | inl (c1, ih, ec) ↦
          let r = recycle-Coherent d dev blockno xs c1 b ih hs in rw ec ((hx, r.0), r.1)
      | inr (free, ec, eb) ↦ rw (ec, eb) (((λ v n. cc), hs), (λ v n. cc))
    ]

bget-Coherent :
    (d : Disk) (dev blockno : ℕ) (c c' : Cache) (b : Buf)
    → bget dev blockno c ≡ got c' b
    → Coherent d c
    → Coherent d c' × Clean d b
bget-Coherent d dev blockno c c' b e h = elim (bget_cases dev blockno c c' b e) [
  | inl hit ↦ lookup-Coherent d dev blockno c c' b hit h
  | inr (miss, taken) ↦ recycle-Coherent d dev blockno c c' b taken h
]

put_back-Coherent :
    (d : Disk) (b : Buf) (c : Cache) → Clean d b → Coherent d c → Coherent d (put_back b c)
unfolding put_back
put_back-Coherent d b [] hb h = tt
put_back-Coherent d b (x ∷ xs) hb (hx, hs) = elim (Bool-cases (x.slot == b.slot)) [
  | inl same ↦ rw same (hb, hs)
  | inr other ↦ rw other (hx, put_back-Coherent d b xs hb hs)
]

-- A buffer that is not dirty is read from the disk.
iderw_reads :
    (d : Disk) (b : Buf)
    → b.dirty ≡ false
    → ((iderw true d b).0 ≡ d) × Clean d (iderw true d b).1 × ((iderw true d b).1.valid ≡ true)
unfolding iderw
iderw_reads d b e = rw e (refl, (λ v n. refl), refl)

-- What `bread` does with the buffer that `bget` returns.
abbrev filled : Disk → Cache → Buf → Bool → Got
filled d c b v = if v then got c b else got (put_back (iderw true d b).1 c) (iderw true d b).1

abbrev AfterBget : Disk → ℕ → ℕ → Cache → Cache → Buf → Type 0
AfterBget d dev blockno c c' b =
    ((bget dev blockno c ≡ got c' b) × (b.valid ≡ true))
    ⊎ ((c1 : Cache) × (b1 : Buf) × (bget dev blockno c ≡ got c1 b1)
        × (b1.valid ≡ false)
        × (c' ≡ put_back (iderw true d b1).1 c1)
        × (b ≡ (iderw true d b1).1))

got_pair : (c1 c' : Cache) (b1 b : Buf) → got c1 b1 ≡ got c' b → (c1 ≡ c') × (b1 ≡ b)
got_pair c1 c' b1 b e = (cc, cc)

filled_cases :
    (d : Disk) (dev blockno : ℕ) (c c' c1 : Cache) (b b1 : Buf) (v : Bool)
    → b1.valid ≡ v
    → bget dev blockno c ≡ got c1 b1
    → filled d c1 b1 v ≡ got c' b
    → AfterBget d dev blockno c c' b
filled_cases d dev blockno c c' c1 b b1 true ev eg e =
    let (ec, eb) = got_pair c1 c' b1 b e in inl (eg ∙ e, sym (ap (λ x. x.valid) eb) ∙ ev)
filled_cases d dev blockno c c' c1 b b1 false ev eg e =
    let (ec, eb) = got_pair (put_back (iderw true d b1).1 c1) c' (iderw true d b1).1 b e in
    inr (c1, b1, eg, ev, sym ec, sym eb)

bread_cases :
    (d : Disk) (dev blockno : ℕ) (c c' : Cache) (b : Buf)
    → bread true d dev blockno c ≡ got c' b
    → AfterBget d dev blockno c c' b
unfolding bread
bread_cases d dev blockno c c' b e = cases (bget dev blockno c) refl
  where
    cases : (g : Got) → bget dev blockno c ≡ g → AfterBget d dev blockno c c' b
    cases sleeps eg = let e' : sleeps ≡ got c' b = rw (eg, bread) at e in cc
    cases panics eg = let e' : panics ≡ got c' b = rw (eg, bread) at e in cc
    cases (got c1 b1) eg =
        let e' : filled d c1 b1 b1.valid ≡ got c' b = rw (eg, bread) at e in
        filled_cases d dev blockno c c' c1 b b1 b1.valid refl eg e'

clean_or_dirty :
    (d : Disk) (b : Buf)
    → (b.dirty ≡ false → b.bytes ≡ d b.dev b.blockno)
    → (b.dirty ≡ true) ⊎ (b.bytes ≡ d b.dev b.blockno)
clean_or_dirty d b h = elim (Bool-cases b.dirty) [ inl e ↦ inl e | inr e ↦ inr (h e) ]

-- Where no buffer is dirty without being valid, and the disk reports no error, `bread` keeps the cache coherent, and the buffer that it
-- returns is valid; it is dirty or its contents are those of the disk.
pub bread-Coherent :
    (d : Disk) (dev blockno : ℕ) (c c' : Cache) (b : Buf)
    → Coherent d c
    → ((c1 : Cache) (b1 : Buf)
        → bget dev blockno c ≡ got c1 b1
        → b1.valid ≡ false
        → b1.dirty ≡ false)
    → bread true d dev blockno c ≡ got c' b
    → Coherent d c' × (b.valid ≡ true) × ((b.dirty ≡ true) ⊎ (b.bytes ≡ d b.dev b.blockno))
bread-Coherent d dev blockno c c' b h clean e = elim (bread_cases d dev blockno c c' b e) [
  | inl (eg, v) ↦
      let r = bget-Coherent d dev blockno c c' b eg h in (r.0, v, clean_or_dirty d b (r.1 v))
  | inr later ↦
      let (c1, b1, eg, v, ec, eb) = later in
      let r = bget-Coherent d dev blockno c c1 b1 eg h in
      let (same, read, valid) = iderw_reads d b1 (clean c1 b1 eg v) in
      rw (ec, eb)
        (
          put_back-Coherent d (iderw true d b1).1 c1 read r.0,
          valid,
          clean_or_dirty d (iderw true d b1).1 (read valid),
        )
]

copies-unlink :
    (dev blockno : ℕ) (x : Buf) (xs : Cache) (slot : ℕ)
    → (x.slot == slot) ≡ true
    → copies dev blockno (unlink slot (x ∷ xs)) ≡ copies dev blockno xs
unfolding unlink
copies-unlink dev blockno x xs slot e = rw e

-- A buffer of the cache: the first one with its slot.
abbrev pub Holds : Buf → Cache → Type 0
Holds b [] = ⊥
Holds b (x ∷ xs) =
    ((x.slot ≡ b.slot) × (x.dev ≡ b.dev) × (x.blockno ≡ b.blockno))
    ⊎ (((x.slot == b.slot) ≡ false) × Holds b xs)

released_copies :
    (b : Buf) (dev blockno : ℕ) (c : Cache)
    → Holds b c
    → copies dev blockno (b ∷ unlink b.slot c) ≡ copies dev blockno c
unfolding unlink
released_copies b dev blockno [] h = absurd h
released_copies b dev blockno (x ∷ xs) (inl (es, ed, eb)) =
    let same : (x.slot == b.slot) ≡ true = ground arith in rw (same, ed, eb)
released_copies b dev blockno (x ∷ xs) (inr (other, h)) =
    rw other (omega (arith, released_copies b dev blockno xs h))

-- `brelse` of a busy buffer of the cache does not panic; it puts the buffer in front, no longer busy, and
-- the cache holds the same blocks as often as before.
pub brelse_lem :
    (b : Buf) (c : Cache)
    → b.busy ≡ true
    → Holds b c
    → (brelse b c ≡ some (record b { busy = false } ∷ unlink b.slot c))
      × ((dev blockno : ℕ)
          → copies dev blockno (record b { busy = false } ∷ unlink b.slot c) ≡ copies dev blockno c)
unfolding brelse
brelse_lem b c e h = (rw e, λ dev blockno. released_copies b dev blockno c h)
