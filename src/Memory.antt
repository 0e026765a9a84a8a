-- ===== src/Memory.antt =====
-- project4/vm.c: the user part of an address space, and how it grows and shrinks. A page is known by its
-- physical address, and a virtual address by its page number; `kalloc` takes the first page of a list and
-- `kfree` puts one in front. A page table entry holds a page and whether the user may use it. What the
-- pages hold is not modelled.
pub mod Grow
pub mod Leak
pub mod Tests
use operating_systems_cs.Prelude.{
  ℕ, zero, suc, ◌+◌, ◌-◌, ◌*◌, ◌/◌, ◌^◌, Bool, true, false, ◌&&◌, ◌||◌, List, [], ◌∷◌, ltb, leb,
  ◌==◌, if◌then◌else◌, Option, none, some, update,
}

abbrev pub pgsize : ℕ
pgsize = 4096

abbrev pub nptentries : ℕ
nptentries = 1024

abbrev pub kernbase : ℕ
kernbase = 2 ^ 31

abbrev pub pgroundup : ℕ → ℕ
pgroundup a = (a + pgsize - 1) / pgsize

abbrev pub Ptes : Type 0
Ptes = ℕ → Option (ℕ × Bool)

-- Which page tables there are, the entries that are present, and the free pages.
pub record Space : Type 0 where
  pub tables : ℕ → Bool
  pub ptes : Ptes
  pub free : List ℕ

-- `walkpgdir(pgdir, va, 1)`: the table is there afterwards, or `none` for 0. A new table is all zeros.
pub walk_alloc : ℕ → Space → Option Space
walk_alloc v s = if s.tables (v / nptentries) then some s else (elim s.free [
  | [] ↦ none
  | p ∷ ps ↦ some (record s {
    tables = update s.tables (v / nptentries) true;
    ptes = (λ x. if x / nptentries == v / nptentries then none else s.ptes x);
    free = ps;
  })
])

-- What `mappages` of one page ends with: -1, the panic "remap", or 0.
pub data MapEnd : Type 0 where
  no_table : MapEnd
  remap : MapEnd
  mapped : Space → MapEnd

pub mappage : ℕ → ℕ → Bool → Space → MapEnd
unfolding walk_alloc
mappage v p user s = elim (walk_alloc v s) [
  | none ↦ no_table
  | some s' ↦ elim (s'.ptes v) [
    | some old ↦ remap
    | none ↦ mapped (record s' { ptes = update s'.ptes v (some (p, user)) })
  ]
]

-- What the loop of `allocuvm` ends with: a panic, no free page, or all pages.
pub data AllocEnd : Type 0 where
  alloc_panics : AllocEnd
  out_of_memory : Space → AllocEnd
  grown : Space → AllocEnd

-- The loop of `allocuvm`, with a bound on its rounds. The result of `mappages` is not looked at.
pub alloc_loop : ℕ → ℕ → ℕ → Space → AllocEnd
unfolding mappage
alloc_loop zero v newsz s = grown s
alloc_loop (suc rounds) v newsz s = elim (ltb (pgsize * v) newsz) [
  | false ↦ grown s
  | true ↦ elim s.free [
    | [] ↦ out_of_memory s
    | p ∷ ps ↦ elim (mappage v p true (record s { free = ps })) [
      | no_table ↦ alloc_loop rounds (v + 1) newsz (record s { free = ps })
      | remap ↦ alloc_panics
      | mapped s' ↦ alloc_loop rounds (v + 1) newsz s'
    ]
  ]
]

-- The loop of `deallocuvm`, with a bound on its rounds; `none` is a panic. Where there is no table it goes
-- on NPTENTRIES pages further.
pub dealloc_loop : ℕ → ℕ → ℕ → Space → Option Space
dealloc_loop zero v oldsz s = some s
dealloc_loop (suc rounds) v oldsz s = elim (ltb (pgsize * v) oldsz) [
  | false ↦ some s
  | true ↦ elim (s.tables (v / nptentries)) [
    | false ↦ dealloc_loop rounds (v + nptentries) oldsz s
    | true ↦ elim (s.ptes v) [
      | none ↦ dealloc_loop rounds (v + 1) oldsz s
      | some (p, user) ↦ elim (p == 0) [
        | true ↦ none
        | false ↦
            dealloc_loop rounds (v + 1) oldsz
              (record s { ptes = update s.ptes v none; free = p ∷ s.free })
      ]
    ]
  ]
]

-- What `allocuvm` and `deallocuvm` return, or a panic.
pub data UvmEnd : Type 0 where
  panics : UvmEnd
  returns : ℕ → Space → UvmEnd

abbrev pub shrunk : ℕ → Option Space → UvmEnd
shrunk r none = panics
shrunk r (some s) = returns r s

pub deallocuvm : ℕ → ℕ → Space → UvmEnd
unfolding dealloc_loop
deallocuvm oldsz newsz s =
    if leb oldsz newsz
    then returns oldsz s
    else shrunk newsz (dealloc_loop oldsz (pgroundup newsz) oldsz s)

-- `allocuvm` where it has run out of memory: it gives back what it took and returns 0.
abbrev pub give_back : ℕ → ℕ → Space → UvmEnd
give_back oldsz newsz s = elim (deallocuvm newsz oldsz s) [
  | panics ↦ panics
  | returns r s' ↦ returns 0 s'
]

pub allocuvm : ℕ → ℕ → Space → UvmEnd
unfolding alloc_loop deallocuvm
allocuvm oldsz newsz s =
    if leb kernbase newsz
    then returns 0 s
    else if ltb newsz oldsz
    then returns oldsz s
    else (elim (alloc_loop newsz (pgroundup oldsz) newsz s) [
      | alloc_panics ↦ panics
      | out_of_memory s' ↦ give_back oldsz newsz s'
      | grown s' ↦ returns newsz s'
    ])

-- `clearpteu`: `none` is the panic.
pub clearpteu : ℕ → Space → Option Space
clearpteu v s =
    if s.tables (v / nptentries)
    then (elim (s.ptes v) [
      | none ↦ some s
      | some (p, user) ↦ some (record s { ptes = update s.ptes v (some (p, false)) })
    ])
    else none

-- `uva2ka`: it reads the entry without a test that there is a table.
pub data KaEnd : Type 0 where
  faults : KaEnd
  no_page : KaEnd
  page : ℕ → KaEnd

pub uva2ka : ℕ → Space → KaEnd
uva2ka v s =
    if s.tables (v / nptentries)
    then (elim (s.ptes v) [ none ↦ no_page | some (p, user) ↦ if user then page p else no_page ])
    else faults
