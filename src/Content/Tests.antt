-- ===== src/Content/Tests.antt =====
-- An empty file on a small disk, and the theorems at it.
use operating_systems_cs.Prelude.{
  ℕ, ◌*◌, ◌+◌, ◌<◌, ◌≡◌, refl, ◌⊎◌, true, arith, ltb, ◌==◌, if◌then◌else◌, List, Option, none, some,
  find,
}
use operating_systems_cs.Content.{
  Blocks, Node, bmap, WriteEnd, write_done, write_fails, write_panics, writei, read_done, readi,
  bytes_from,
}
use operating_systems_cs.Content.Slots.{slot, IsSound}
use operating_systems_cs.Content.Write.{file_byte}
use operating_systems_cs.Content.Read.{IsFilled}
use operating_systems_cs.Content.Enough.{free_blocks}
use operating_systems_cs.Content.RoundTrip.{
  Refuses, Written, Fits, Misfits, writei_lem, readi-writei,
}

abbrev blank : Blocks
blank = record {
  size = 10;
  used = λ b. b == 0;
  bytes = λ b i. 0;
  log_takes = λ k. true;
  logged = 0;
}

abbrev empty : Node
empty = record { addrs = λ i. 0; size = 0 }

blank-IsSound : IsSound blank empty
unfolding slot
blank-IsSound = record {
  small = omega arith;
  zero_used = refl;
  in_use = λ s hs ne. ground arith;
  once = λ s t hs ht ne e. ground arith;
}

empty-IsFilled : IsFilled blank empty
empty-IsFilled = record { size_le = omega arith; there = λ p lt. absurd (omega arith) }

blocks_of : WriteEnd → Blocks
blocks_of (write_done f n) = f
blocks_of write_fails = blank
blocks_of write_panics = blank

node_of : WriteEnd → Node
node_of (write_done f n) = n
node_of write_fails = empty
node_of write_panics = empty

abbrev source : ℕ → ℕ
source i = 65 + i

abbrev after_write : WriteEnd
after_write = writei source 0 3 blank empty

writes : writei source 0 3 blank empty ≡ write_done (blocks_of after_write) (node_of after_write)
unfolding writei blocks_of node_of find
writes = refl

readi-writei_example :
    readi 0 3 (blocks_of after_write) (node_of after_write)
    ≡ read_done (blocks_of after_write) (node_of after_write) (bytes_from source 0 3)
readi-writei_example =
    readi-writei source 0 3 blank (blocks_of after_write) empty (node_of after_write) blank-IsSound
      empty-IsFilled (omega arith) (omega arith) writes

writei_lem_example :
    (Misfits 0 3 empty × (writei source 0 3 blank empty ≡ write_fails))
    ⊎ (Fits 0 3 empty
        × ((((free_blocks blank < 2 * 3) ⊎ Refuses blank 3)
              × (writei source 0 3 blank empty ≡ write_panics))
            ⊎ ((f' : Blocks) × (n' : Node) × (writei source 0 3 blank empty ≡ write_done f' n')
                × Written source 0 3 blank f' empty n')))
writei_lem_example =
    writei_lem source 0 3 blank empty blank-IsSound empty-IsFilled (omega arith) (omega arith)

abbrev one_block : Node
one_block = record { addrs = λ i. if i == 0 then 1 else 0; size = 5 }

abbrev lettered : Blocks
lettered = record {
  size = 10;
  used = λ b. ltb b 2;
  bytes = λ b i. i;
  log_takes = λ k. true;
  logged = 0;
}

one_block-IsFilled : IsFilled lettered one_block
unfolding slot
one_block-IsFilled = record { size_le = omega arith; there = λ p lt. ground arith }

abbrev letters : List ℕ
letters = bytes_from (file_byte lettered one_block) 2 3

-- The first allocation of the empty file.
mapped_blocks : Option (Blocks × Node × ℕ) → Blocks × Node
mapped_blocks none = (blank, empty)
mapped_blocks (some (f, n, b)) = (f, n)

abbrev mapped : Blocks × Node
mapped = mapped_blocks (bmap 13 blank empty)

maps : bmap 13 blank empty ≡ some (mapped.0, mapped.1, 2)
unfolding bmap find mapped_blocks
maps = refl
