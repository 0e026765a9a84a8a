-- ===== src/Bio.antt =====
-- project4/bio.c: the buffer cache, a list of buffers from the most to the least recently used. The
-- circular list through `bcache.head` is modelled by the list of its buffers in the order of `next`;
-- a buffer is known by its slot in `bcache.buf`. `bcache.lock` is held from one sleep to the next:
-- `bget` that sleeps starts its loop anew, which is one more call here.
pub mod Cache
pub mod Coherence
pub mod Tests
use operating_systems_cs.Prelude.{
  ℕ, zero, suc, ◌+◌, ◌^◌, ◌-◌, Bool, true, false, not, ◌&&◌, ◌||◌, List, [], ◌∷◌, ◌==◌,
  if◌then◌else◌, Option, none, some,
}

-- `struct buf`: the flags B_BUSY, B_VALID and B_DIRTY, and the contents.
pub record Buf : Type 0 where
  pub slot : ℕ
  pub dev : ℕ
  pub blockno : ℕ
  pub busy : Bool
  pub valid : Bool
  pub dirty : Bool
  pub bytes : ℕ

abbrev pub Cache : Type 0
Cache = List Buf

abbrev pub nbuf : ℕ
nbuf = 30

-- The device of a buffer that has never been used, -1.
abbrev pub no_dev : ℕ
no_dev = 2 ^ 32 - 1

-- `binit`: each buffer of the array is put in front, the last one first in the end.
pub binit : ℕ → Cache → Cache
binit zero c = c
binit (suc n) c =
    record {
      slot = n;
      dev = no_dev;
      blockno = 0;
      busy = false;
      valid = false;
      dirty = false;
      bytes = 0;
    }
    ∷ binit n c

abbrev pub caches : ℕ → ℕ → Buf → Bool
caches dev blockno b = (b.dev == dev) && (b.blockno == blockno)

-- The first loop of `bget`.
pub data Lookup : Type 0 where
  absent : Lookup
  in_use : Lookup
  found : Cache → Buf → Lookup

abbrev pub behind : Buf → Lookup → Lookup
behind x absent = absent
behind x in_use = in_use
behind x (found c b) = found (x ∷ c) b

pub lookup : ℕ → ℕ → Cache → Lookup
lookup dev blockno [] = absent
lookup dev blockno (x ∷ xs) =
    let rest = behind x (lookup dev blockno xs) in
    if caches dev blockno x
    then (if x.busy
        then in_use
        else found (record x { busy = true } ∷ xs) (record x { busy = true }))
    else rest

abbrev pub idle : Buf → Bool
idle b = not b.busy && not b.dirty

abbrev pub recycled : ℕ → ℕ → Buf → Buf
recycled dev blockno b = record b {
  dev = dev;
  blockno = blockno;
  busy = true;
  valid = false;
  dirty = false;
}

-- The second loop of `bget`: the last buffer that is neither busy nor dirty.
pub recycle : ℕ → ℕ → Cache → Option (Cache × Buf)
recycle dev blockno [] = none
recycle dev blockno (x ∷ xs) = elim (recycle dev blockno xs) [
  | some (c, b) ↦ some (x ∷ c, b)
  | none ↦ if idle x then some (recycled dev blockno x ∷ xs, recycled dev blockno x) else none
]

-- What `bget` does: it returns a buffer, sleeps on one, or panics.
pub data Got : Type 0 where
  got : Cache → Buf → Got
  sleeps : Got
  panics : Got

pub bget : ℕ → ℕ → Cache → Got
unfolding lookup recycle
bget dev blockno c = elim (lookup dev blockno c) [
  | found c' b ↦ got c' b
  | in_use ↦ sleeps
  | absent ↦ elim (recycle dev blockno c) [ none ↦ panics | some (c', b) ↦ got c' b ]
]

-- The cache with the buffer of slot `b.slot` replaced.
pub put_back : Buf → Cache → Cache
put_back b [] = []
put_back b (x ∷ xs) = if x.slot == b.slot then b ∷ xs else x ∷ put_back b xs

abbrev pub Disk : Type 0
Disk = ℕ → ℕ → ℕ

-- `iderw` on a buffer: a dirty one is written, any other is read unless the disk reports an error, which `ok`
-- excludes; it is valid and clean afterwards in either case.
pub iderw : Bool → Disk → Buf → Disk × Buf
iderw ok d b =
    if b.dirty
    then (
      (λ dev blockno. if caches dev blockno b then b.bytes else d dev blockno),
      record b { dirty = false; valid = true },
    )
    else (d, record b { bytes = if ok then d b.dev b.blockno else b.bytes; valid = true })

pub bread : Bool → Disk → ℕ → ℕ → Cache → Got
unfolding bget iderw put_back
bread ok d dev blockno c = elim (bget dev blockno c) [
  | got c' b ↦ if b.valid then got c' b else got (put_back (iderw ok d b).1 c') (iderw ok d b).1
  | sleeps ↦ sleeps
  | panics ↦ panics
]

-- `none` is the panic of `bwrite` and of `brelse`.
pub bwrite : Disk → Buf → Option (Disk × Buf)
unfolding iderw
bwrite d b = if b.busy then some (iderw true d (record b { dirty = true })) else none

pub unlink : ℕ → Cache → Cache
unlink slot [] = []
unlink slot (x ∷ xs) = if x.slot == slot then xs else x ∷ unlink slot xs

pub brelse : Buf → Cache → Option Cache
unfolding unlink
brelse b c = if b.busy then some (record b { busy = false } ∷ unlink b.slot c) else none
