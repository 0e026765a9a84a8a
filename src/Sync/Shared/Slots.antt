-- ===== src/Sync/Shared/Slots.antt =====
-- Processes that attach the region at different addresses find the same kernel page.
use operating_systems_cs.Prelude.{ℕ, ◌+◌, ◌-◌, ◌*◌, ◌/◌, ◌^◌, ◌≤◌, ◌<◌, ◌≡◌, arith, some}
use operating_systems_cs.Sync.Shared.{pgsize, page_slot}

-- An address in page `i` of the region, wherever the process has attached it, is taken to slot `i`
-- of `shared_pages`, if the region lies in the lower half of the address space.
pub page_slot_lem :
    (base i offset : ℕ)
    → offset < pgsize
    → base + pgsize * i + offset < 2 ^ 31
    → page_slot (base + pgsize * i + offset) base ≡ some i
unfolding page_slot
page_slot_lem base i offset h fits = ground arith

-- The index is not checked: an address at or past the end of a region of `n` pages is taken to a slot
-- that the region does not have, up to the end of the lower half of the address space.
pub page_slot_unchecked :
    (base n addr : ℕ)
    → base + pgsize * n ≤ addr
    → addr < 2 ^ 31
    → (i : ℕ) × (page_slot addr base ≡ some i) × (n ≤ i)
unfolding page_slot
page_slot_unchecked base n addr lo hi = ((addr - base) / pgsize, ground arith, omega arith)
