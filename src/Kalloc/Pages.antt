-- ===== src/Kalloc/Pages.antt =====
-- The free list holds the pages that were freed and not allocated since, each once.
use operating_systems_cs.Prelude.{
  ℕ, zero, suc, ◌+◌, ◌-◌, ◌*◌, ◌/◌, ◌%◌, ◌≤◌, ◌<◌, ◌≡◌, ◌≢◌, refl, ◌⊎◌, inl, inr, true, false, List,
  [], ◌∷◌, arith, leb, ◌==◌, Bool-cases, some, has, update, update_self,
}
use operating_systems_cs.Kalloc.{
  pgsize, kernbase, phystop, v2p, Kmem, kfree, kalloc, pgroundup, free_loop, freerange,
}

-- From `p` the links lead through `xs` to 0.
abbrev pub Chain : (ℕ → ℕ) → ℕ → List ℕ → Type 0
Chain word p [] = p ≡ 0
Chain word p (x ∷ xs) = (p ≡ x) × (x ≢ 0) × Chain word (word x) xs

abbrev pub Distinct : List ℕ → Type 0
Distinct [] = Unit {0}
Distinct (x ∷ xs) = (has x xs ≡ false) × Distinct xs

pub record Free (k : Kmem) (xs : List ℕ) : Type 0 where
  pub chain : Chain k.word k.freelist xs
  pub distinct : Distinct xs

-- A page of the memory that the kernel manages.
pub record IsPage (end_addr v : ℕ) : Type 0 where
  pub aligned : v % pgsize ≡ 0
  pub above : end_addr ≤ v
  pub base : kernbase ≤ v
  pub below : v < kernbase + phystop

Chain-frame :
    (word word' : ℕ → ℕ) (p : ℕ) (xs : List ℕ)
    → ((a : ℕ) → has a xs ≡ true → word' a ≡ word a)
    → Chain word p xs
    → Chain word' p xs
Chain-frame word word' p [] same c = c
Chain-frame word word' p (x ∷ xs) same (e, ne, c) = (
  e,
  ne,
  Chain-frame word word' (word' x) xs (λ a h. same a (ground arith)) (rw (same x (ground arith)) c),
)

-- `kfree` of a page that is not free does not panic, and puts the page in front of the free list.
pub kfree_lem :
    (end_addr v : ℕ) (k : Kmem) (xs : List ℕ)
    → IsPage end_addr v
    → has v xs ≡ false
    → Free k xs
    → (k' : Kmem) × (kfree end_addr v k ≡ some k') × Free k' (v ∷ xs)
unfolding kfree v2p
kfree_lem end_addr v k xs page out f =
    let word' = update (update k.word v 0x01010101) v k.freelist in
    (
      record { freelist = v; word = word' },
      ground (arith, page.aligned, page.above, page.base, page.below),
      record {
        chain = (
          refl,
          omega (arith, page.base),
          rw (update_self (update k.word v 0x01010101) v k.freelist) (
              Chain-frame k.word word' k.freelist xs
                (λ a h. elim (Bool-cases (v == a)) [
                  | inl same ↦ absurd (ground arith)
                  | inr other ↦ ground arith
                ])
                f.chain),
        );
        distinct = (out, f.distinct);
      },
    )

-- `kalloc` takes the first page off the free list and returns it, or returns 0 if no page is free.
pub kalloc_lem :
    (k : Kmem) (xs : List ℕ)
    → Free k xs
    → ((xs ≡ []) × (kalloc k ≡ (k, 0)))
      ⊎ ((x : ℕ) × (ys : List ℕ) × (xs ≡ x ∷ ys)
          × ((kalloc k).1 ≡ x)
          × (x ≢ 0)
          × (has x ys ≡ false)
          × Free (kalloc k).0 ys)
unfolding kalloc
kalloc_lem k [] f = inl (refl, ground (arith, f.chain))
kalloc_lem k (x ∷ ys) f =
    let (e, ne, c) = f.chain in
    let b : (k.freelist == 0) ≡ false = ground arith in
    inr (
      x,
      ys,
      refl,
      rw b e,
      ne,
      f.distinct.0,
      rw b (record { chain = rw e c; distinct = f.distinct.1 }),
    )

-- `n` pages from `p` on, the last first, before `xs`.
abbrev pub stacked : ℕ → ℕ → List ℕ → List ℕ
stacked zero p xs = xs
stacked (suc n) p xs = stacked n (p + pgsize) (p ∷ xs)

free_loop_lem :
    (end_addr vend fuel n p : ℕ) (k : Kmem) (xs : List ℕ)
    → n < fuel
    → p + pgsize * n ≤ vend
    → vend < p + pgsize * n + pgsize
    → p % pgsize ≡ 0
    → end_addr ≤ p
    → kernbase ≤ p
    → vend ≤ kernbase + phystop
    → ((a : ℕ) → p ≤ a → has a xs ≡ false)
    → Free k xs
    → (k' : Kmem) × (free_loop end_addr vend fuel p k ≡ some k') × Free k' (stacked n p xs)
unfolding free_loop
free_loop_lem end_addr vend zero n p k xs h1 h2 h3 h4 h5 h6 h7 out f = absurd (omega arith)
free_loop_lem end_addr vend (suc fuel) zero p k xs h1 h2 h3 h4 h5 h6 h7 out f =
    let b : leb (p + pgsize) vend ≡ false = ground arith in (k, rw (b, free_loop), f)
free_loop_lem end_addr vend (suc fuel) (suc n) p k xs h1 h2 h3 h4 h5 h6 h7 out f =
    let b : leb (p + pgsize) vend ≡ true = ground arith in
    let (k1, freed, f1) =
      kfree_lem end_addr p k xs
        (record { aligned = h4; above = h5; base = h6; below = omega arith }) (out p (omega arith))
        f in
    let (k', does, f') =
      free_loop_lem end_addr vend fuel n (p + pgsize) k1 (p ∷ xs) (omega arith) (omega arith)
        (omega arith) (omega arith) (omega arith) (omega arith) h7
        (λ a lo. ground (arith, out a (omega arith))) f1 in
    (k', rw (b, freed, free_loop) does, f')

-- `freerange` on an empty free list, for a range of the memory above the kernel, ends without a panic
-- and frees exactly the whole pages of the range, each once.
pub freerange_lem :
    (end_addr vstart vend : ℕ) (k : Kmem)
    → end_addr ≤ vstart
    → kernbase ≤ vstart
    → pgroundup vstart ≤ vend
    → vend ≤ kernbase + phystop
    → Free k []
    → (k' : Kmem) × (freerange end_addr vstart vend k ≡ some k')
      × Free k' (stacked ((vend - pgroundup vstart) / pgsize) (pgroundup vstart) [])
unfolding freerange
freerange_lem end_addr vstart vend k h1 h2 h3 h4 f =
    free_loop_lem end_addr vend (vend / pgsize + 1) ((vend - pgroundup vstart) / pgsize)
      (pgroundup vstart) k [] (omega arith) (omega arith) (omega arith) (omega arith) (omega arith)
      (omega arith) h4 (λ a lo. refl) f
