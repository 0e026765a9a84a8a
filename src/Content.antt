-- ===== src/Content.antt =====
-- project4/fs.c: the blocks of the disk and the contents of a file. The disk is seen through the buffer
-- cache: `bread` gives the block, and what is written to it is there for the next `bread`; `brelse`,
-- `log_write` and `iupdate` move data between the cache, the log and the disk only. The free map is one
-- bit for each block. A word of an indirect block is its four bytes, the lowest first.
pub mod Words
pub mod Slots
pub mod Map
pub mod Entry
pub mod Enough
pub mod Write
pub mod Bytes
pub mod Read
pub mod RoundTrip
pub mod Tests
use operating_systems_cs.Prelude.{
  ℕ, zero, suc, ◌+◌, ◌-◌, ◌*◌, ◌/◌, ◌%◌, ◌^◌, Bool, true, false, not, ◌&&◌, ◌||◌, List, [], ◌++◌,
  ◌∷◌, ltb, ◌==◌, if◌then◌else◌, Option, none, some, update, find,
}

abbrev pub bsize : ℕ
bsize = 512

abbrev pub ndirect : ℕ
ndirect = 12

abbrev pub nindirect : ℕ
nindirect = 128

-- `sb.size`, the free map and the contents of the blocks; and the answers of the log to the rounds of `writei`
-- to come, with the number of those that were given.
pub record Blocks : Type 0 where
  pub size : ℕ
  pub used : ℕ → Bool
  pub bytes : ℕ → ℕ → ℕ
  pub log_takes : ℕ → Bool
  pub logged : ℕ

-- The fields of `struct inode` that say where the contents are.
pub record Node : Type 0 where
  pub addrs : ℕ → ℕ
  pub size : ℕ

-- `((uint*)bp->data)[i]`, and a store to it.
pub word_at : (ℕ → ℕ) → ℕ → ℕ
word_at f i = f (4 * i) + 256 * f (4 * i + 1) + 65536 * f (4 * i + 2) + 16777216 * f (4 * i + 3)

pub set_word : (ℕ → ℕ) → ℕ → ℕ → ℕ → ℕ
set_word f i w =
    update
      (update (update (update f (4 * i) (w % 256)) (4 * i + 1) (w / 256 % 256)) (4 * i + 2)
        (w / 65536 % 256))
      (4 * i + 3) (w / 16777216 % 256)

-- `balloc`: the two loops go over the blocks in order. `none` is the panic.
unfoldable pub balloc : Blocks → Option (Blocks × ℕ)
balloc f = elim (find f.size 0 (λ b. not (f.used b))) [
  | none ↦ none
  | some b ↦ some (record f { used = update f.used b true; bytes = update f.bytes b (λ _. 0) }, b)
]

pub bfree : ℕ → Blocks → Option Blocks
bfree b f = if f.used b then some (record f { used = update f.used b false }) else none

-- `ip->addrs[i]`, allocated if it is 0.
unfoldable pub addr_of : ℕ → Blocks → Node → Option (Blocks × Node × ℕ)
unfolding balloc
addr_of i f n =
    if n.addrs i == 0
    then (elim (balloc f) [
      | none ↦ none
      | some (f', b) ↦ some (f', record n { addrs = update n.addrs i b }, b)
    ])
    else some (f, n, n.addrs i)

-- Entry `k` of the indirect block `a`, allocated if it is 0.
pub entry_of : ℕ → ℕ → Blocks → Option (Blocks × ℕ)
unfolding balloc word_at set_word
entry_of a k f =
    if word_at (f.bytes a) k == 0
    then (elim (balloc f) [
      | none ↦ none
      | some (f', b) ↦ some (record f' { bytes = update f'.bytes a (set_word (f'.bytes a) k b) }, b)
    ])
    else some (f, word_at (f.bytes a) k)

-- `bmap`; `none` is a panic.
unfoldable pub bmap : ℕ → Blocks → Node → Option (Blocks × Node × ℕ)
unfolding addr_of entry_of
bmap bn f n =
    if ltb bn ndirect
    then addr_of bn f n
    else if ltb (bn - ndirect) nindirect
    then (elim (addr_of ndirect f n) [
      | none ↦ none
      | some (f', n', a) ↦ elim (entry_of a (bn - ndirect) f') [
        | none ↦ none
        | some (f'', b) ↦ some (f'', n', b)
      ]
    ])
    else none

-- `min(n - tot, BSIZE - off % BSIZE)`.
abbrev pub chunk : ℕ → ℕ → ℕ
chunk off left = if ltb left (bsize - off % bsize) then left else bsize - off % bsize

-- The bytes of `g` from `a` on.
abbrev pub bytes_from : (ℕ → ℕ) → ℕ → ℕ → List ℕ
bytes_from g a zero = []
bytes_from g a (suc m) = g a ∷ bytes_from g (a + 1) m

-- The loop of `readi`, with a bound on its rounds.
pub read_loop : ℕ → ℕ → ℕ → Blocks → Node → Option (Blocks × Node × List ℕ)
unfolding bmap
read_loop zero off left f n = some (f, n, [])
read_loop (suc rounds) off left f n = elim (left == 0) [
  | true ↦ some (f, n, [])
  | false ↦ elim (bmap (off / bsize) f n) [
    | none ↦ none
    | some (f', n', b) ↦
        elim (read_loop rounds (off + chunk off left) (left - chunk off left) f' n') [
          | none ↦ none
          | some (f'', n'', out) ↦
              some (f'', n'', bytes_from (f'.bytes b) (off % bsize) (chunk off left) ++ out)
        ]
  ]
]

-- What `readi` and `writei` on a file that is no device end with.
pub data ReadEnd : Type 0 where
  read_fails : ReadEnd
  read_panics : ReadEnd
  read_done : Blocks → Node → List ℕ → ReadEnd

abbrev pub read_end : Option (Blocks × Node × List ℕ) → ReadEnd
read_end none = read_panics
read_end (some (f, n, out)) = read_done f n out

pub readi : ℕ → ℕ → Blocks → Node → ReadEnd
unfolding read_loop
readi off count f n =
    if ltb n.size off || ltb ((off + count) % 2 ^ 32) off
    then read_fails
    else (let left = if ltb n.size (off + count) then n.size - off else count in
        read_end (read_loop left off left f n))

-- `memmove(bp->data + at, src, m)`.
abbrev pub splice : (ℕ → ℕ) → ℕ → (ℕ → ℕ) → ℕ → ℕ → ℕ
splice block at src m i = if not (ltb i at) && ltb i (at + m) then src (i - at) else block i

-- The loop of `writei`, with a bound on its rounds. Other processes log blocks too, so whether the log has
-- room for the blocks of one round, those that `bmap` takes and, in the last one, the inode's among
-- them, is an answer of `log_takes`, a new one in each round; where it has none, `log_write` panics.
unfoldable pub write_loop : ℕ → (ℕ → ℕ) → ℕ → ℕ → Blocks → Node → Option (Blocks × Node)
unfolding bmap
write_loop zero src off left f n = some (f, n)
write_loop (suc rounds) src off left f n = elim (left == 0) [
  | true ↦ some (f, n)
  | false ↦ elim (f.log_takes f.logged) [
    | false ↦ none
    | true ↦ elim (bmap (off / bsize) f n) [
      | none ↦ none
      | some (f', n', b) ↦
          write_loop rounds (λ i. src (i + chunk off left)) (off + chunk off left)
            (left - chunk off left)
            (record f' {
              bytes = update f'.bytes b (splice (f'.bytes b) (off % bsize) src (chunk off left));
              log_takes = f.log_takes;
              logged = f.logged + 1;
            })
            n'
    ]
  ]
]

pub data WriteEnd : Type 0 where
  write_fails : WriteEnd
  write_panics : WriteEnd
  write_done : Blocks → Node → WriteEnd

-- The size after `writei`.
abbrev pub grown : ℕ → ℕ → Node → Node
grown off count n =
    if not (count == 0) && ltb n.size (off + count) then record n { size = off + count } else n

abbrev pub write_end : ℕ → ℕ → Option (Blocks × Node) → WriteEnd
write_end off count none = write_panics
write_end off count (some (f, n)) = write_done f (grown off count n)

unfoldable pub writei : (ℕ → ℕ) → ℕ → ℕ → Blocks → Node → WriteEnd
unfolding write_loop
writei src off count f n =
    if ltb n.size off || ltb ((off + count) % 2 ^ 32) off
    then write_fails
    else if ltb ((ndirect + nindirect) * bsize) ((off + count) % 2 ^ 32)
    then write_fails
    else write_end off count (write_loop count src off count f n)

-- The loops of `itrunc` over the `k` last of the direct blocks and of the entries of the indirect block `a`.
pub free_direct : ℕ → ℕ → Blocks → Node → Option (Blocks × Node)
unfolding bfree
free_direct zero i f n = some (f, n)
free_direct (suc k) i f n = elim (n.addrs i == 0) [
  | true ↦ free_direct k (i + 1) f n
  | false ↦ elim (bfree (n.addrs i) f) [
    | none ↦ none
    | some f' ↦ free_direct k (i + 1) f' (record n { addrs = update n.addrs i 0 })
  ]
]

pub free_entries : ℕ → ℕ → ℕ → Blocks → Option Blocks
unfolding bfree word_at
free_entries zero j a f = some f
free_entries (suc k) j a f = elim (word_at (f.bytes a) j == 0) [
  | true ↦ free_entries k (j + 1) a f
  | false ↦ elim (bfree (word_at (f.bytes a) j) f) [
    | none ↦ none
    | some f' ↦ free_entries k (j + 1) a f'
  ]
]

abbrev pub emptied : Node → Node
emptied n = record n { size = 0 }

-- `itrunc` after its first loop.
pub free_indirect : Blocks → Node → Option (Blocks × Node)
unfolding free_entries bfree
free_indirect f n = elim (n.addrs ndirect == 0) [
  | true ↦ some (f, emptied n)
  | false ↦ elim (free_entries nindirect 0 (n.addrs ndirect) f) [
    | none ↦ none
    | some f1 ↦ elim (bfree (n.addrs ndirect) f1) [
      | none ↦ none
      | some f2 ↦ some (f2, emptied (record n { addrs = update n.addrs ndirect 0 }))
    ]
  ]
]

pub itrunc : Blocks → Node → Option (Blocks × Node)
unfolding free_direct free_indirect
itrunc f n = elim (free_direct ndirect 0 f n) [ none ↦ none | some (f', n') ↦ free_indirect f' n' ]
