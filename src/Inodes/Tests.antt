-- ===== src/Inodes/Tests.antt =====
-- A cache with one inode in use, and the theorems at it.
use operating_systems_cs.Prelude.{
  ◌≡◌, refl, true, false, arith, ◌==◌, if◌then◌else◌, some, none, update, find,
}
use operating_systems_cs.Inodes.{Inode, Icache, iget}
use operating_systems_cs.Inodes.Once.{Once}

abbrev root : Inode
root = record { dev = 1; inum = 1; ref = 1; busy = false; valid = true; type = 1; nlink = 0 }

abbrev free_slot : Inode
free_slot = record { dev = 0; inum = 0; ref = 0; busy = false; valid = false; type = 0; nlink = 0 }

abbrev cache : Icache
cache i = if i == 0 then root else free_slot

cache-Once : Once cache
cache-Once = record { once = λ i j hi hj pi pj e f. ground arith }

abbrev seven : Inode
seven = record free_slot { dev = 1; inum = 7; ref = 1 }

iget-seven : iget 1 7 cache ≡ some (update cache 1 seven, 1)
unfolding iget find
iget-seven = refl

abbrev full : Icache
full i = record root { inum = i }

iget_panics : iget 2 7 full ≡ none
unfolding iget find
iget_panics = refl
