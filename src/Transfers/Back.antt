-- ===== src/Transfers/Back.antt =====
-- fileread after filewrite.
use operating_systems_cs.Prelude.{
  ℕ, zero, suc, ◌+◌, ◌^◌, ◌≤◌, ◌<◌, ◌≡◌, refl, ap, true, arith, length,
}
use operating_systems_cs.Content.{Blocks, Node, bytes_from}
use operating_systems_cs.Content.Slots.{IsSound}
use operating_systems_cs.Content.Write.{max_bytes}
use operating_systems_cs.Content.Read.{IsFilled}
use operating_systems_cs.Content.RoundTrip.{read_back}
use operating_systems_cs.Files.{File, fd_inode}
use operating_systems_cs.Transfers.{wrote, got, filewrite, fileread}
use operating_systems_cs.Transfers.Chunks.{Transfers, filewrite-Transfers}

bytes_from-length : (g : ℕ → ℕ) (a m : ℕ) → length (bytes_from g a m) ≡ m
bytes_from-length g a zero = refl
bytes_from-length g a (suc m) = ap suc (bytes_from-length g (a + 1) m)

-- What filewrite has written through one file, fileread of the same inode reads through another whose
-- offset is where that of the first one was: it returns the bytes of the source, in their order, changes
-- nothing on the disk, and moves its offset behind them.
pub fileread-filewrite :
    (file other : File) (src : ℕ → ℕ) (count m off : ℕ) (f f' : Blocks) (n n' : Node)
    → file.writable ≡ true
    → file.type ≡ fd_inode
    → other.readable ≡ true
    → other.type ≡ fd_inode
    → other.off ≡ file.off
    → IsSound f n
    → IsFilled f n
    → file.off ≤ n.size
    → count < 2 ^ 31
    → filewrite file src count f n ≡ wrote m off f' n'
    → fileread other count f' n' ≡ got (bytes_from src 0 count) off f' n'
unfolding fileread
fileread-filewrite file other src count m off f f' n n' wr ino rd ino2 same v w le lt e =
    let t : Transfers count src file.off count f n (wrote m off f' n') =
      rw e at (filewrite-Transfers file src count f n wr ino v w le lt) in
    let (val, at, written) = t in
    let big = w.size_le in
    let big' = written.filled.size_le in
    let g = written.size_grown in
    let fits : file.off + count ≤ max_bytes = ground arith in
    let back =
      read_back src file.off count f f' n n' (omega arith) (omega arith) (le, fits) written in
    rw (rd, ino2, same, back, bytes_from-length src 0 count, at) refl
