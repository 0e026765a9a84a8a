-- ===== src/Drive.antt =====
-- project4/ide.c: the disk driver, with the buffers of Bio. A buffer is known by its number; the list that
-- starts at `idequeue` is the list of its buffers. `idelock` is held from one sleep to the next, so `iderw`
-- up to its loop and the interrupt handler are one step each. Of the controller there is the command that
-- it works on: `idewait` returns when there is none, and what was read from it is an argument.
pub mod Steps
pub mod Fifo
pub mod Serve
pub mod Registers
pub mod Tests
use operating_systems_cs.Prelude.{
  ℕ, ◌+◌, ◌*◌, ◌/◌, ◌%◌, ◌^◌, Bool, true, false, not, ◌&&◌, ◌||◌, List, [], ◌∷◌, ◌++◌, ltb, ◌==◌,
  if◌then◌else◌, Option, none, some, update,
}
use operating_systems_cs.Bio.{Buf}

abbrev pub fssize : ℕ
fssize = 1000

-- BSIZE / SECTOR_SIZE.
abbrev pub sector_per_block : ℕ
sector_per_block = 1

pub data Order : Type 0 where
  reads : Order
  writes : ℕ → Order

-- What is written to the ports 0x1f2 to 0x1f7, and to 0x1f0.
pub record Command : Type 0 where
  pub count : ℕ
  pub sector0 : ℕ
  pub sector1 : ℕ
  pub sector2 : ℕ
  pub select : ℕ
  pub order : Order

pub record Drive : Type 0 where
  pub bufs : ℕ → Buf
  pub queue : List ℕ
  pub active : Option Command
  pub woken : List ℕ
  pub havedisk1 : Bool

pub data End : Type 0 where
  panics : End
  hangs : End
  returns : Drive → End

-- The bits of 0xe0, of the device and of the sector's top are apart, and `|` is `+`.
pub command : Buf → Command
command b =
    let sector = b.blockno * sector_per_block in
    record {
      count = sector_per_block;
      sector0 = sector % 2 ^ 8;
      sector1 = sector / 2 ^ 8 % 2 ^ 8;
      sector2 = sector / 2 ^ 16 % 2 ^ 8;
      select = 224 + b.dev % 2 * 2 ^ 4 + sector / 2 ^ 24 % 2 ^ 4;
      order = if b.dirty then writes b.bytes else reads;
    }

pub idestart : ℕ → Drive → End
unfolding command
idestart b s =
    if ltb (s.bufs b).blockno fssize
    then (elim s.active [
      | none ↦ returns (record s { active = some (command (s.bufs b)) })
      | some c ↦ hangs
    ])
    else panics

abbrev pub start_next : List ℕ → Drive → End
start_next [] s = returns s
start_next (b ∷ bs) s = idestart b s

-- The buffer after its command: `ok` is that `idewait(1)` finds no error.
abbrev pub received : Bool → ℕ → Buf → Buf
received ok incoming b = record b {
  bytes = if not b.dirty && ok then incoming else b.bytes;
  valid = true;
  dirty = false;
}

abbrev pub serve : Bool → ℕ → List ℕ → Drive → End
serve ok incoming [] s = returns s
serve ok incoming (b ∷ bs) s = start_next bs (record s {
  queue = bs;
  bufs = update s.bufs b (received ok incoming (s.bufs b));
  woken = s.woken ++ (b ∷ []);
})

pub ideintr : Bool → ℕ → Drive → End
ideintr ok incoming s = serve ok incoming s.queue s

-- The test of the loop at the end of `iderw`.
abbrev pub waits : Buf → Bool
waits b = not (b.valid && not b.dirty)

abbrev pub is_first : ℕ → List ℕ → Bool
is_first b [] = false
is_first b (c ∷ cs) = c == b

abbrev pub enqueue : ℕ → Drive → End
enqueue b s = if is_first b s.queue then idestart b s else returns s

-- `iderw` up to the loop.
pub iderw : ℕ → Drive → End
iderw b s =
    let buf = s.bufs b in
    if not buf.busy || (buf.valid && not buf.dirty) || (not (buf.dev == 0) && not s.havedisk1)
    then panics
    else enqueue b (record s { queue = s.queue ++ (b ∷ []) })
