-- ===== src/Pipe/Tests.antt =====
-- Runs of a pipe, and the theorems at them.
use operating_systems_cs.Prelude.{◌≡◌, refl, ◌||◌, not, true, false, List, [], ◌∷◌, ◌++◌, arith}
use operating_systems_cs.Pipe.{Pipe, pipewrite, piperead, read_done}
use operating_systems_cs.Pipe.Ring.{IsValid, contents}
use operating_systems_cs.Pipe.Fifo.{
  Same, queue_write, queue_read, Op, write, read, close, run, pipewrite_refines, piperead_refines,
  run_fifo,
}

-- A pipe whose counters are about to wrap, with one byte.
abbrev wrapping : Pipe
wrapping = record {
  bytes = λ _. 7;
  nread = 0xffff_fffe;
  nwrite = 0xffff_ffff;
  readopen = true;
  writeopen = true;
}

wrapping-IsValid : IsValid wrapping
wrapping-IsValid = record { nread_lt = omega arith; nwrite_lt = omega arith; fits = omega arith }

wraps_round :
    (piperead false (pipewrite false wrapping (8 ∷ 9 ∷ [])).0 5).1 ≡ read_done (7 ∷ 8 ∷ 9 ∷ [])
unfolding piperead pipewrite
wraps_round = refl

pipewrite_refines_example :
    let (p', out) = pipewrite false wrapping (8 ∷ 9 ∷ []) in
    IsValid p'
    × Same wrapping p'
    × ((contents p', out) ≡ queue_write (not true || false) (contents wrapping) (8 ∷ 9 ∷ []))
pipewrite_refines_example = pipewrite_refines false wrapping (8 ∷ 9 ∷ []) wrapping-IsValid

piperead_refines_example :
    let (p', out) = piperead false wrapping 3 in
    IsValid p'
    × Same wrapping p'
    × ((contents p', out) ≡ queue_read false true (contents wrapping) 3)
piperead_refines_example = piperead_refines false wrapping 3 wrapping-IsValid

abbrev script : List Op
script = write false (8 ∷ []) ∷ read false 1 ∷ write false (9 ∷ []) ∷ close true ∷ read false 5 ∷ []

run_fifo_example :
    let (q, ins, outs) = run script wrapping in
    IsValid q × (contents wrapping ++ ins ≡ outs ++ contents q)
run_fifo_example = run_fifo script wrapping wrapping-IsValid
