-- ===== src/Transfers/Tests.antt =====
-- Three bytes are written to an empty file and read back.
use operating_systems_cs.Prelude.{ℕ, ◌+◌, ◌≡◌, refl, true, arith, ◌==◌, find}
use operating_systems_cs.Content.{
  Blocks, Node, bytes_from, balloc, addr_of, bmap, write_loop, writei,
}
use operating_systems_cs.Content.Slots.{slot, IsSound}
use operating_systems_cs.Content.Read.{IsFilled}
use operating_systems_cs.Files.{File, fd_inode}
use operating_systems_cs.Transfers.{
  End, panics, pipe, fails, wrote, got, write_chunks, filewrite, fileread,
}
use operating_systems_cs.Transfers.Back.{fileread-filewrite}

abbrev blank : Blocks
blank = record {
  size = 10;
  used = λ b. b == 0;
  bytes = λ b i. 0;
  log_takes = λ k. true;
  logged = 0;
}

abbrev empty : Node
empty = record { addrs = λ i. 0; size = 0 }

blank-IsSound : IsSound blank empty
unfolding slot
blank-IsSound = record {
  small = omega arith;
  zero_used = refl;
  in_use = λ s hs ne. ground arith;
  once = λ s t hs ht ne e. ground arith;
}

empty-IsFilled : IsFilled blank empty
empty-IsFilled = record { size_le = omega arith; there = λ p lt. absurd (omega arith) }

abbrev source : ℕ → ℕ
source i = 65 + i

abbrev file : File
file = record {
  type = fd_inode;
  ref = 1;
  readable = true;
  writable = true;
  pipe = 0;
  ip = 2;
  off = 0;
}

abbrev blocks_of : End → Blocks
blocks_of panics = blank
blocks_of (pipe p) = blank
blocks_of (fails off f n) = f
blocks_of (wrote m off f n) = f
blocks_of (got bytes off f n) = f

abbrev node_of : End → Node
node_of panics = empty
node_of (pipe p) = empty
node_of (fails off f n) = n
node_of (wrote m off f n) = n
node_of (got bytes off f n) = n

abbrev after_write : End
after_write = filewrite file source 3 blank empty

-- The file has a second entry in the table, still at offset 0.
fileread-filewrite_example :
    fileread file 3 (blocks_of after_write) (node_of after_write)
    ≡ got (bytes_from source 0 3) 3 (blocks_of after_write) (node_of after_write)
unfolding filewrite write_chunks writei write_loop bmap addr_of balloc find
fileread-filewrite_example =
    fileread-filewrite file file source 3 3 3 blank (blocks_of after_write) empty
      (node_of after_write) refl refl refl refl refl blank-IsSound empty-IsFilled (omega arith)
      (omega arith) refl
