-- ===== src/Log.antt =====
-- project4/log.c: the redo log that makes the file system calls atomic across a crash.
-- The disk is an array of sectors. A sector holds either the bytes of a block, which the log only
-- copies and which are therefore one number here, or a log header (`struct logheader`).
-- `bread` gives the cached contents of a block; `bwrite` puts them on the disk. The log region is
-- only written through `bwrite`, so there the cache and the disk agree, and the log is read from the
-- disk. The home blocks that a transaction changed are newer in the cache (`B_DIRTY`).
pub mod Crash
pub mod Ops
pub mod Tests
use operating_systems_cs.Prelude.{
  ◌^◌, ◌%◌, ℕ, zero, suc, ◌+◌, ◌-◌, ◌*◌, Bool, true, false, not, ◌||◌, List, [], ◌∷◌, ◌++◌, ltb,
  leb, ◌==◌, if◌then◌else◌, Option, none, some, length, has, update,
}

abbrev pub maxopblocks : ℕ
maxopblocks = 10

abbrev pub logsize : ℕ
logsize = maxopblocks * 3

pub data Sector : Type 0 where
  block : ℕ → Sector
  header : List ℕ → Sector

abbrev pub Disk : Type 0
Disk = ℕ → Sector

-- The block list of a log header; a block that is no header reads as an empty one.
pub header_of : Sector → List ℕ
header_of (block b) = []
header_of (header bs) = bs

-- `struct log`; `lh` is the list of `lh.n` block numbers in memory.
pub record Log : Type 0 where
  pub start : ℕ
  pub size : ℕ
  pub outstanding : ℕ
  pub committing : Bool
  pub lh : List ℕ

-- One `bwrite`: the address and what goes there.
pub record Write : Type 0 where
  pub at : ℕ
  pub what : Sector

pub apply_all : List Write → Disk → Disk
apply_all [] d = d
apply_all (w ∷ ws) d = apply_all ws (update d w.at w.what)

-- The writes of `write_log`, from slot `tail` on: the cached contents of each logged block.
pub write_log : (ℕ → ℕ) → ℕ → ℕ → List ℕ → List Write
write_log cache start tail [] = []
write_log cache start tail (b ∷ bs) =
    record { at = start + tail + 1; what = block (cache b) } ∷ write_log cache start (tail + 1) bs

pub write_head : ℕ → List ℕ → Write
write_head start bs = record { at = start; what = header bs }

-- The writes of `install_trans`, from slot `tail` on: each slot of the log region, as it is on the
-- disk `d`, to its home.
pub install_trans : Disk → ℕ → ℕ → List ℕ → List Write
install_trans d start tail [] = []
install_trans d start tail (b ∷ bs) =
    record { at = b; what = d (start + tail + 1) } ∷ install_trans d start (tail + 1) bs

-- The writes of `commit`, in order: the log, the header, the homes, the empty header.
pub commit_writes : (ℕ → ℕ) → Disk → ℕ → List ℕ → List Write
unfolding write_log write_head install_trans apply_all
commit_writes cache d start [] = []
commit_writes cache d start (b ∷ bs) =
    let logged = write_log cache start 0 (b ∷ bs) in
    let committed = apply_all logged d in
    logged
    ++ (write_head start (b ∷ bs) ∷ install_trans committed start 0 (b ∷ bs)
        ++ (write_head start [] ∷ []))

-- `recover_from_log` at the next boot.
pub recover_from_log : ℕ → Disk → Disk
unfolding header_of install_trans write_head apply_all
recover_from_log start d =
    apply_all (install_trans d start 0 (header_of (d start)) ++ (write_head start [] ∷ [])) d

-- `begin_op`: the log with one more operation, or `none` where the caller sleeps on `&log`.
pub begin_op : Log → Option Log
begin_op l =
    if l.committing
    then none
    else if ltb logsize (length l.lh + (l.outstanding + 1) * maxopblocks)
    then none
    else some (record l { outstanding = l.outstanding + 1 })

-- What a call ends with: a panic, or a new state.
pub data Outcome : Type 0 where
  panic : Outcome
  state : Log → Outcome

-- `outstanding -= 1` on an int, as a 32-bit pattern.
abbrev pub less : ℕ → ℕ
less n = (n + 2 ^ 32 - 1) % 2 ^ 32

-- The first half of `end_op`, under the lock. Where nothing is outstanding any more the caller goes on
-- to `commit`, with `committing` set, and then to `end_commit`; otherwise it wakes `&log`.
pub end_op : Log → Outcome
end_op l =
    if l.committing
    then panic
    else state (record l { outstanding = less l.outstanding; committing = less l.outstanding == 0 })

-- `commit` leaves no logged block, and the second half of `end_op` clears `committing`.
pub end_commit : Log → Log
end_commit l = record l { lh = []; committing = false }

-- The loop of `log_write` and the append behind it: absorbed if the block is there already.
pub log_block : ℕ → List ℕ → List ℕ
log_block b [] = b ∷ []
log_block b (x ∷ xs) = if x == b then b ∷ xs else x ∷ log_block b xs

pub log_write : ℕ → Log → Outcome
unfolding log_block
log_write b l =
    if leb logsize (length l.lh) || leb (l.size - 1) (length l.lh)
    then panic
    else if ltb l.outstanding 1
    then panic
    else state (record l { lh = log_block b l.lh })
