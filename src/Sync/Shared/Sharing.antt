-- ===== src/Sync/Shared/Sharing.antt =====
-- The mappings that attaching makes, and the count of the processes attached.
use operating_systems_cs.Prelude.{
  ℕ, zero, suc, ◌+◌, ◌-◌, ◌*◌, ◌/◌, ◌≤◌, ◌<◌, ◌≡◌, refl, ap, ◌∙◌, inl, inr, true, arith, ltb, leb,
  ◌&&◌, ◌==◌, if◌then◌else◌, Bool-cases, Option, none, some, update, update_ne,
}
use operating_systems_cs.Sync.Shared.{
  pgsize, v2p, Shared, Caller, Result, refused, panics, overruns, done, of_option, map_loop,
  mappages, attach_loop, mmap_attach, mmap_detach,
}

map_one :
    (n : ℕ) (pgdir : ℕ → Option ℕ) (a pa : ℕ)
    → n ≡ 1
    → pgdir a ≡ none
    → map_loop n a pa pgdir ≡ some (update pgdir a (some pa))
unfolding map_loop
map_one n pgdir a pa e free = rw e (rw (free, map_loop))

-- One page at a page-aligned address.
mappages_page :
    (pgdir : ℕ → Option ℕ) (va a pa : ℕ)
    → va ≡ pgsize * a
    → pgdir a ≡ none
    → mappages pgdir va pgsize pa ≡ some (update pgdir a (some pa))
unfolding mappages
mappages_page pgdir va a pa e free =
    let page : va / pgsize ≡ a = omega arith in
    rw page (map_one ((va + pgsize - 1) / pgsize - a + 1) pgdir a pa (omega arith) free)

-- The page table with slots `i` to `i + n - 1` of the region mapped from page `b + i` on.
abbrev pub attached : (ℕ → ℕ) → ℕ → ℕ → ℕ → (ℕ → Option ℕ) → ℕ → Option ℕ
attached pages b n i pgdir a =
    if leb (b + i) a && ltb a (b + i + n) then some (v2p (pages (a - b))) else pgdir a

attach_loop_lem :
    (n i b : ℕ) (s : Shared) (c : Caller)
    → c.vaddr ≡ pgsize * b
    → ((a : ℕ) → b + i ≤ a → a < b + i + n → c.pgdir a ≡ none)
    → (pg : ℕ → Option ℕ) × (attach_loop n i s c ≡ some (s, record c { pgdir = pg }))
      × ((a : ℕ) → pg a ≡ attached s.pages b n i c.pgdir a)
unfolding attach_loop
attach_loop_lem zero i b s c e free = (c.pgdir, refl, λ a. ground arith)
attach_loop_lem (suc n) i b s c e free =
    let one =
      mappages_page c.pgdir (c.vaddr + pgsize * i) (b + i) (v2p (s.pages i)) (omega arith)
        (free (b + i) (omega arith) (omega arith)) in
    let c' = record c { pgdir = update c.pgdir (b + i) (some (v2p (s.pages i))) } in
    let (pg, loop, maps) = attach_loop_lem n (i + 1) b s c' e (λ a lo hi.
      update_ne c.pgdir (b + i) a (some (v2p (s.pages i))) (omega arith)
      ∙ free a (omega arith) (omega arith)) in
    let at : b + i - b ≡ i = omega arith in
    (
      pg,
      rw (one, attach_loop) loop,
      λ a. maps a ∙ elim (Bool-cases (b + i == a)) [
        | inl same ↦ ground (arith, ap s.pages at)
        | inr other ↦ ground arith
      ],
    )

-- A process that attaches the region at a page-aligned address where the pages of the region are free
-- in its page table gets exactly the region's kernel pages, in order, from there on, with the rest of
-- its page table unchanged; and it is counted.
pub mmap_attach_lem :
    (b : ℕ) (s : Shared) (c : Caller)
    → ((a : ℕ) → b ≤ a → a < b + s.npages → c.pgdir a ≡ none)
    → (pg : ℕ → Option ℕ) × (mmap_attach (pgsize * b) s c
        ≡ done
            (record s { refcount = s.refcount + 1 })
            (record { shared = true; vaddr = pgsize * b; pgdir = pg }))
      × ((a : ℕ) → pg a ≡ attached s.pages b s.npages 0 c.pgdir a)
unfolding mmap_attach of_option
mmap_attach_lem b s c free =
    let (pg, loop, maps) =
      attach_loop_lem s.npages 0 b (record s { refcount = s.refcount + 1 })
        (record c { shared = true; vaddr = pgsize * b }) refl
        (λ a lo hi. free a (omega arith) (omega arith)) in
    (pg, rw loop, maps)

-- The processes and what they share.
pub record System : Type 0 where
  pub shared : Shared
  pub procs : ℕ → Caller

abbrev pub after_detach : System → ℕ → Result → Option System
after_detach t p refused = none
after_detach t p panics = none
after_detach t p overruns = none
after_detach t p (done s c) = some (record { shared = s; procs = update t.procs p c })

-- `sys_mmap_detach` of the process `p`, where it returns 0.
pub detach_by : ℕ → System → Option System
detach_by p t = after_detach t p (mmap_detach t.shared (t.procs p))
