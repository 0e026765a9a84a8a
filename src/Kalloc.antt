-- ===== src/Kalloc.antt =====
-- project4/kalloc.c: the free pages, linked through their first words. Of the memory only those words are
-- modelled. `kmem.lock` is held throughout `kfree` and `kalloc`, so each is one step; before `kinit2` one
-- processor runs alone. `end` is the first address after the kernel, which the linker sets.
pub mod Pages
pub mod Tests
use operating_systems_cs.Prelude.{
  ℕ, zero, suc, ◌+◌, ◌-◌, ◌*◌, ◌/◌, ◌%◌, ◌^◌, Bool, true, false, not, ◌||◌, ltb, leb, ◌==◌,
  if◌then◌else◌, Option, none, some, update,
}

abbrev pub pgsize : ℕ
pgsize = 4096

abbrev pub kernbase : ℕ
kernbase = 2 ^ 31

abbrev pub phystop : ℕ
phystop = 0xE000000

-- `v2p`, on a 32-bit address.
pub v2p : ℕ → ℕ
v2p a = (a + 2 ^ 32 - kernbase) % 2 ^ 32

-- `kmem.freelist` and the word at each address; `r->next` is the word at `r`.
pub record Kmem : Type 0 where
  pub freelist : ℕ
  pub word : ℕ → ℕ

-- `none` is the panic. `memset` fills the page with ones before the link is written.
pub kfree : ℕ → ℕ → Kmem → Option Kmem
unfolding v2p
kfree end_addr v k =
    if not (v % pgsize == 0) || ltb v end_addr || leb phystop (v2p v)
    then none
    else some (record { freelist = v; word = update (update k.word v 0x01010101) v k.freelist })

-- The page, or 0.
pub kalloc : Kmem → Kmem × ℕ
kalloc k =
    if k.freelist == 0 then (k, 0) else (record k { freelist = k.word k.freelist }, k.freelist)

-- `PGROUNDUP`.
abbrev pub pgroundup : ℕ → ℕ
pgroundup a = (a + pgsize - 1) / pgsize * pgsize

-- The loop of `freerange`, with fuel: `none` is a panic of `kfree` or the end of the fuel.
pub free_loop : ℕ → ℕ → ℕ → ℕ → Kmem → Option Kmem
unfolding kfree
free_loop end_addr vend zero p k = none
free_loop end_addr vend (suc fuel) p k =
    let rest = λ (k' : Kmem). free_loop end_addr vend fuel (p + pgsize) k' in
    elim (leb (p + pgsize) vend) [
      | false ↦ some k
      | true ↦ elim (kfree end_addr p k) [ none ↦ none | some k' ↦ rest k' ]
    ]

pub freerange : ℕ → ℕ → ℕ → Kmem → Option Kmem
unfolding free_loop
freerange end_addr vstart vend k = free_loop end_addr vend (vend / pgsize + 1) (pgroundup vstart) k
