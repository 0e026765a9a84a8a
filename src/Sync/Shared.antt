-- ===== src/Sync/Shared.antt =====
-- `sys_mmap_alloc`, `sys_mmap_attach` and `sys_mmap_detach` of project4/sysfile.c, and the way in which
-- the calls on semaphores, locks and condition variables find the kernel page of a user address.
-- A call runs under `shared_lock` throughout and is one step. A page table is a map from page numbers
-- to physical pages; `mappages` is that of project4/vm.c with page table pages always to be had. A
-- kernel page is known by its address, and `kalloc` takes the next one of a list, or gives 0.
pub mod Slots
pub mod Sharing
pub mod Tests
use operating_systems_cs.Prelude.{
  ℕ, zero, suc, ◌+◌, ◌-◌, ◌*◌, ◌/◌, ◌%◌, ◌^◌, Bool, true, false, List, [], ◌∷◌, ltb, ◌==◌, ◌&&◌,
  if◌then◌else◌, Option, none, some, update,
}

abbrev pub pgsize : ℕ
pgsize = 4096

-- The length of `shared_pages`.
abbrev pub shared_slots : ℕ
shared_slots = 16

-- `v2p`, with KERNBASE at 2 ^ 31.
pub v2p : ℕ → ℕ
v2p a = (a + 2 ^ 32 - 2 ^ 31) % 2 ^ 32

-- The globals `shared_pages`, `shared_npages` and `shared_refcount`, and the free pages.
pub record Shared : Type 0 where
  pub pages : ℕ → ℕ
  pub npages : ℕ
  pub refcount : ℕ
  pub free : List ℕ

-- The fields of `struct proc` that the calls use.
pub record Caller : Type 0 where
  pub shared : Bool
  pub vaddr : ℕ
  pub pgdir : ℕ → Option ℕ

-- The loop of `mappages` over `n` pages from page number `a` on; `none` is the panic "remap".
pub map_loop : ℕ → ℕ → ℕ → (ℕ → Option ℕ) → Option (ℕ → Option ℕ)
map_loop zero a pa pgdir = some pgdir
map_loop (suc n) a pa pgdir =
    let rest = map_loop n (a + 1) (pa + pgsize) (update pgdir a (some pa)) in
    elim (pgdir a) [ none ↦ rest | some old ↦ none ]

-- `mappages` of `size` bytes at `va`: from the page of `va` to the page of the last byte.
pub mappages : (ℕ → Option ℕ) → ℕ → ℕ → ℕ → Option (ℕ → Option ℕ)
unfolding map_loop
mappages pgdir va size pa =
    map_loop ((va + size - 1) / pgsize - va / pgsize + 1) (va / pgsize) pa pgdir

-- `kalloc`: 0 if no page is free.
pub take_page : List ℕ → ℕ × List ℕ
take_page [] = (0, [])
take_page (p ∷ ps) = (p, ps)

-- The loop of `sys_mmap_alloc`, with `n` pages to go from index `i`.
pub alloc_loop : ℕ → ℕ → Shared → Caller → Option (Shared × Caller)
unfolding mappages take_page v2p
alloc_loop zero i s c = some (s, c)
alloc_loop (suc n) i s c =
    let page = (take_page s.free).0 in
    let s' = record s { free = (take_page s.free).1; pages = update s.pages i page } in
    let rest = λ (pgdir : ℕ → Option ℕ). alloc_loop n (i + 1) s' (record c { pgdir = pgdir }) in
    elim (mappages c.pgdir (c.vaddr + pgsize * i) pgsize (v2p page)) [
      | none ↦ none
      | some pgdir ↦ rest pgdir
    ]

-- What a call does: it returns -1 and changes nothing, it panics, it writes past the end of `shared_pages`,
-- or it returns 0.
pub data Result : Type 0 where
  refused panics overruns : Result
  done : Shared → Caller → Result

pub of_option : Option (Shared × Caller) → Result
of_option none = panics
of_option (some (s, c)) = done s c

-- The rounds of a loop up to the int `npages`; a negative one does none, here and in the loops of the other
-- calls.
abbrev pub rounds : ℕ → ℕ
rounds npages = if ltb npages (2 ^ 31) then npages else 0

pub mmap_alloc : ℕ → ℕ → Shared → Caller → Result
unfolding alloc_loop of_option
mmap_alloc vaddr npages s c =
    if ltb 0 s.refcount && ltb s.refcount (2 ^ 31)
    then refused
    else if ltb shared_slots (rounds npages)
    then overruns
    else of_option (
        alloc_loop (rounds npages) 0 (record s { npages = rounds npages; refcount = 1 })
          (record c { shared = true; vaddr = vaddr }))

-- The loop of `sys_mmap_attach`.
pub attach_loop : ℕ → ℕ → Shared → Caller → Option (Shared × Caller)
unfolding mappages v2p
attach_loop zero i s c = some (s, c)
attach_loop (suc n) i s c =
    let rest = λ (pgdir : ℕ → Option ℕ). attach_loop n (i + 1) s (record c { pgdir = pgdir }) in
    elim (mappages c.pgdir (c.vaddr + pgsize * i) pgsize (v2p (s.pages i))) [
      | none ↦ none
      | some pgdir ↦ rest pgdir
    ]

pub mmap_attach : ℕ → Shared → Caller → Result
unfolding attach_loop of_option
mmap_attach vaddr s c = of_option (
    attach_loop s.npages 0 (record s { refcount = s.refcount + 1 })
      (record c { shared = true; vaddr = vaddr }))

-- The loops of `sys_mmap_detach`: the present bits cleared, and the pages freed.
pub clear_loop : ℕ → ℕ → ℕ → (ℕ → Option ℕ) → ℕ → Option ℕ
clear_loop zero i vaddr pgdir = pgdir
clear_loop (suc n) i vaddr pgdir =
    clear_loop n (i + 1) vaddr (update pgdir ((vaddr + pgsize * i) / pgsize) none)

pub free_loop : ℕ → ℕ → (ℕ → ℕ) → List ℕ → List ℕ
free_loop zero i pages free = free
free_loop (suc n) i pages free = free_loop n (i + 1) pages (pages i ∷ free)

-- `shared_refcount -= 1` on an int, as a 32-bit pattern.
pub mmap_detach : Shared → Caller → Result
unfolding clear_loop free_loop
mmap_detach s c =
    if c.shared
    then (let count = (s.refcount + 2 ^ 32 - 1) % 2 ^ 32 in
        done
          (record s {
            refcount = count;
            free = if count == 0 then free_loop s.npages 0 s.pages s.free else s.free;
          })
          (record c { pgdir = clear_loop s.npages 0 c.vaddr c.pgdir }))
    else refused

-- `(vaddr - proc->vaddr) / PGSIZE`: a signed 32-bit difference, divided towards 0. `none` is a
-- negative index.
pub page_slot : ℕ → ℕ → Option ℕ
page_slot vaddr base =
    let diff = (vaddr + 2 ^ 32 - base) % 2 ^ 32 in
    if ltb diff (2 ^ 31)
    then some (diff / pgsize)
    else if ltb (2 ^ 32 - diff) pgsize
    then some 0
    else none
