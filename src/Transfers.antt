-- ===== src/Transfers.antt =====
-- project4/file.c: `fileread` and `filewrite`, on the contents of files of Content and the files of
-- Files. The caller has an inode's blocks and its node at hand; those of a pipe are in Pipe.
-- The counts are not negative.
pub mod Chunks
pub mod Back
pub mod Tests
use operating_systems_cs.Prelude.{
  ℕ, zero, suc, ◌+◌, ◌-◌, ◌*◌, ◌/◌, Bool, true, false, List, [], ◌∷◌, length, ltb, ◌==◌,
  if◌then◌else◌,
}
use operating_systems_cs.Content.{
  Blocks, Node, ReadEnd, read_fails, read_panics, read_done, readi, WriteEnd, write_fails,
  write_panics, write_done, writei,
}
use operating_systems_cs.Files.{File, FileType, fd_none, fd_pipe, fd_inode}

abbrev pub logsize : ℕ
logsize = 10 * 3

-- How much filewrite writes in one transaction.
abbrev pub max_chunk : ℕ
max_chunk = (logsize - 1 - 1 - 2) / 2 * 512

-- What the calls end with: a panic, a call of `piperead` or `pipewrite`, -1, or the number of bytes that were
-- written or the bytes that were read.
pub data End : Type 0 where
  panics : End
  pipe : ℕ → End
  fails : ℕ → Blocks → Node → End
  wrote : ℕ → ℕ → Blocks → Node → End
  got : List ℕ → ℕ → Blocks → Node → End

abbrev pub next_chunk : ℕ → ℕ
next_chunk left = if ltb max_chunk left then max_chunk else left

-- The loop of filewrite with `left` bytes to go, and a bound on its rounds. `writei` returns the
-- whole count where it does not fail. The result is `count`.
pub write_chunks : ℕ → ℕ → (ℕ → ℕ) → ℕ → ℕ → Blocks → Node → End
write_chunks count zero src left off f n = wrote count off f n
write_chunks count (suc rounds) src left off f n = elim (left == 0) [
  | true ↦ wrote count off f n
  | false ↦ elim (writei src off (next_chunk left) f n) [
    | write_fails ↦ fails off f n
    | write_panics ↦ panics
    | write_done f' n' ↦
        write_chunks count rounds (λ i. src (i + next_chunk left)) (left - next_chunk left)
          (off + next_chunk left) f' n'
  ]
]

pub filewrite : File → (ℕ → ℕ) → ℕ → Blocks → Node → End
unfolding write_chunks
filewrite file src count f n =
    if file.writable
    then (elim file.type [
      | fd_none ↦ panics
      | fd_pipe ↦ pipe file.pipe
      | fd_inode ↦ write_chunks count count src count file.off f n
    ])
    else fails file.off f n

abbrev pub read_from : ℕ → ReadEnd → Blocks → Node → End
read_from off read_fails f n = fails off f n
read_from off read_panics f n = panics
read_from off (read_done f' n' bytes) f n = got bytes (off + length bytes) f' n'

pub fileread : File → ℕ → Blocks → Node → End
fileread file count f n =
    if file.readable
    then (elim file.type [
      | fd_none ↦ panics
      | fd_pipe ↦ pipe file.pipe
      | fd_inode ↦ read_from file.off (readi file.off count f n) f n
    ])
    else fails file.off f n
