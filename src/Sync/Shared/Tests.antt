-- ===== src/Sync/Shared/Tests.antt =====
-- A region of two pages, and the theorems at it.
use operating_systems_cs.Prelude.{◌*◌, true, [], ◌==◌, if◌then◌else◌, none, some, update}
use operating_systems_cs.Sync.Shared.{pgsize, v2p, Shared, Caller}
use operating_systems_cs.Sync.Shared.Sharing.{System}

abbrev region : Shared
region = record {
  pages = update (update (λ _. 0) 0 0x8010_0000) 1 0x8020_0000;
  npages = 2;
  refcount = 2;
  free = [];
}

abbrev member : Caller
member = record { shared = true; vaddr = pgsize * 100; pgdir = λ _. none }

-- The other process has the region from page 200 on.
abbrev other : Caller
other = record {
  shared = true;
  vaddr = pgsize * 200;
  pgdir = λ a.
      if a == 200
      then some (v2p 0x8010_0000)
      else if a == 201
      then some (v2p 0x8020_0000)
      else none;
}

abbrev system : System
system = record { shared = region; procs = λ p. if p == 1 then member else other }
