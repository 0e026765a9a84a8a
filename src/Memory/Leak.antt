-- ===== src/Memory/Leak.antt =====
-- What growing does with the last free page when the page table is missing.
use operating_systems_cs.Prelude.{
  ℕ, zero, suc, ◌+◌, ◌*◌, ◌/◌, ◌≤◌, ◌<◌, ◌≡◌, refl, Bool, true, false, arith, [], ◌∷◌, ltb, leb,
}
use operating_systems_cs.Memory.{
  pgsize, nptentries, kernbase, pgroundup, Ptes, walk_alloc, no_table, mappage, grown, alloc_loop,
  returns, allocuvm,
}
use operating_systems_cs.Memory.Grow.{space, alloc_done}

-- Without a table and without a page for one, `mappages` returns -1.
mappage_fails :
    (v p : ℕ) (user : Bool) (tables : ℕ → Bool) (t : Ptes)
    → tables (v / nptentries) ≡ false
    → mappage v p user (space tables t []) ≡ no_table
unfolding mappage walk_alloc
mappage_fails v p user tables t e = rw (e, mappage, walk_alloc) refl

loop_loses :
    (rounds v newsz p : ℕ) (tables : ℕ → Bool) (t : Ptes)
    → 0 < rounds
    → pgsize * v < newsz
    → newsz ≤ pgsize * (v + 1)
    → tables (v / nptentries) ≡ false
    → alloc_loop rounds v newsz (space tables t (p ∷ [])) ≡ grown (space tables t [])
unfolding alloc_loop
loop_loses zero v newsz p tables t h a b e = absurd (omega arith)
loop_loses (suc rounds) v newsz p tables t h a b e =
    let more : ltb (pgsize * v) newsz ≡ true = ground arith in
    rw (more, mappage_fails v p true tables t e, alloc_loop)
      (alloc_done rounds (v + 1) newsz (space tables t []) b)

-- Growing by one page that has no page table, with a single page free: it returns the new size, but the
-- page is not mapped and the free page is gone.
pub allocuvm_loses :
    (oldsz newsz p : ℕ) (tables : ℕ → Bool) (t : Ptes)
    → newsz < kernbase
    → pgroundup oldsz + 1 ≡ pgroundup newsz
    → tables (pgroundup oldsz / nptentries) ≡ false
    → allocuvm oldsz newsz (space tables t (p ∷ [])) ≡ returns newsz (space tables t [])
unfolding allocuvm
allocuvm_loses oldsz newsz p tables t low one e =
    let small : leb kernbase newsz ≡ false = ground arith in
    let up : ltb newsz oldsz ≡ false = ground arith in
    let loop =
      loop_loses newsz (pgroundup oldsz) newsz p tables t (omega arith) (omega arith) (omega arith)
        e in
    rw (small, up, loop) refl
