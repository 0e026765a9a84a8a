-- ===== src/Inodes.antt =====
-- project4/fs.c: the cache of inodes in memory. `icache.lock` is held throughout each operation on the
-- cache or from one sleep to the next; `iput` gives it up round `itrunc` and `iupdate`, whose work on the
-- disk is not modelled, while it keeps the inode busy.
pub mod Once
pub mod Tests
use operating_systems_cs.Prelude.{
  ℕ, zero, suc, ◌+◌, ◌-◌, ◌≡◌, Bool, true, false, not, ◌&&◌, ◌||◌, ltb, ◌==◌, if◌then◌else◌, Option,
  none, some, update, find,
}

abbrev pub ninode : ℕ
ninode = 50

-- `struct inode`: the flags I_BUSY and I_VALID, and the fields that the operations test.
pub record Inode : Type 0 where
  pub dev : ℕ
  pub inum : ℕ
  pub ref : ℕ
  pub busy : Bool
  pub valid : Bool
  pub type : ℕ
  pub nlink : ℕ

abbrev pub Icache : Type 0
Icache = ℕ → Inode

abbrev pub is_inode : ℕ → ℕ → Inode → Bool
is_inode dev inum x = ltb 0 x.ref && ((x.dev == dev) && (x.inum == inum))

-- `iget`: the slot of the inode; `none` is the panic.
pub iget : ℕ → ℕ → Icache → Option (Icache × ℕ)
iget dev inum c = elim (find ninode 0 (λ i. is_inode dev inum (c i))) [
  | some i ↦ some (update c i (record (c i) { ref = (c i).ref + 1 }), i)
  | none ↦ elim (find ninode 0 (λ i. (c i).ref == 0)) [
    | none ↦ none
    | some i ↦ some (
      update c i (record (c i) { dev = dev; inum = inum; ref = 1; busy = false; valid = false }),
      i,
    )
  ]
]

pub idup : ℕ → Icache → Icache
idup i c = update c i (record (c i) { ref = (c i).ref + 1 })

-- What `ilock` does: it panics, sleeps on the inode, or locks it.
pub data LockEnd : Type 0 where
  panics : LockEnd
  sleeps : LockEnd
  locked : Icache → LockEnd

-- The inode with the type and the links that it has on the disk.
abbrev pub read_in : (ℕ → ℕ → ℕ × ℕ) → Inode → Inode
read_in dinode x = record x {
  busy = true;
  valid = true;
  type = (dinode x.dev x.inum).0;
  nlink = (dinode x.dev x.inum).1;
}

pub ilock : (ℕ → ℕ → ℕ × ℕ) → ℕ → Icache → LockEnd
ilock dinode i c =
    if ltb (c i).ref 1
    then panics
    else if (c i).busy
    then sleeps
    else if (c i).valid
    then locked (update c i (record (c i) { busy = true }))
    else if (dinode (c i).dev (c i).inum).0 == 0
    then panics
    else locked (update c i (read_in dinode (c i)))

pub iunlock : ℕ → Icache → Option Icache
iunlock i c =
    if not (c i).busy || ltb (c i).ref 1
    then none
    else some (update c i (record (c i) { busy = false }))

-- The inode is freed with its content when its last reference goes and it has no links.
abbrev pub unused : Inode → Bool
unused x = (x.ref == 1) && (x.valid && (x.nlink == 0))

-- `iput`, with whether it frees the inode; `none` is the panic "iput busy". Its callers have a reference.
pub iput : ℕ → Icache → Option (Icache × Bool)
iput i c =
    if unused (c i)
    then (if (c i).busy
        then none
        else some (
          update c i (record (c i) { type = 0; busy = false; valid = false; ref = (c i).ref - 1 }),
          true,
        ))
    else some (update c i (record (c i) { ref = (c i).ref - 1 }), false)
