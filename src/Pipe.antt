-- ===== src/Pipe.antt =====
-- project4/pipe.c: the kernel pipe, a ring of PIPESIZE bytes between two 32-bit counters.
-- `p->lock` is held from one sleep to the next, so a call is cut into sections: a section runs from
-- the acquisition of the lock (or the return of `sleep`) to the next `sleep` or to the return.
-- After a sleep the code tests its loop condition anew, on whatever the other processes left:
-- that is one more section, on the bytes that are still to be written.
pub mod Ring
pub mod Fifo
pub mod Tests
use operating_systems_cs.Prelude.{
  ℕ, zero, suc, ◌+◌, ◌%◌, ◌^◌, Bool, true, false, not, ◌&&◌, ◌||◌, List, [], ◌∷◌, ◌==◌,
  if◌then◌else◌, update,
}

abbrev pub pipesize : ℕ
pipesize = 512

-- The wait channels `&p->nread` and `&p->nwrite`.
pub data Chan : Type 0 where
  nread_chan nwrite_chan : Chan

pub record Pipe : Type 0 where
  pub bytes : ℕ → ℕ
  pub nread : ℕ
  pub nwrite : ℕ
  pub readopen : Bool
  pub writeopen : Bool

-- The fields as `pipealloc` sets them; the bytes are what the page held.
pub new_pipe : (ℕ → ℕ) → Pipe
new_pipe page = record { bytes = page; nread = 0; nwrite = 0; readopen = true; writeopen = true }

-- `p->nwrite == p->nread + PIPESIZE`, in 32 bits.
pub is_full : Pipe → Bool
is_full p = p.nwrite == (p.nread + pipesize) % 2 ^ 32

pub is_empty : Pipe → Bool
is_empty p = p.nread == p.nwrite

-- `p->data[p->nwrite++ % PIPESIZE] = byte`
pub put : Pipe → ℕ → Pipe
put p byte = record p {
  bytes = update p.bytes (p.nwrite % pipesize) byte;
  nwrite = (p.nwrite + 1) % 2 ^ 32;
}

-- `p->nread++`; the byte that it passes is `head_byte`.
pub advance : Pipe → Pipe
advance p = record p { nread = (p.nread + 1) % 2 ^ 32 }

pub head_byte : Pipe → ℕ
head_byte p = p.bytes (p.nread % pipesize)

-- How a section of `pipewrite` ends: it has copied all and returns n, it returns -1, or it sleeps on
-- `nwrite` with these bytes left.
pub data WriteEnd : Type 0 where
  wrote : WriteEnd
  write_failed : WriteEnd
  write_sleeps : List ℕ → WriteEnd

pub pipewrite : Bool → Pipe → List ℕ → Pipe × WriteEnd
unfolding is_full put
pipewrite killed p [] = (p, wrote)
pipewrite killed p (x ∷ xs) =
    let rest = pipewrite killed (put p x) xs in
    if is_full p
    then (if not p.readopen || killed then (p, write_failed) else (p, write_sleeps (x ∷ xs)))
    else rest

-- The calls of `wakeup` in a section of `pipewrite`.
pub write_wakes : WriteEnd → List Chan
write_wakes wrote = nread_chan ∷ []
write_wakes write_failed = []
write_wakes (write_sleeps xs) = nread_chan ∷ []

-- How a section of `piperead` ends: with the bytes copied out, with -1, or asleep on `nread`.
pub data ReadEnd : Type 0 where
  read_done : List ℕ → ReadEnd
  read_failed : ReadEnd
  read_sleeps : ReadEnd

-- The `for` loop of `piperead`, with the number of rounds left.
pub read_loop : ℕ → Pipe → Pipe × List ℕ
unfolding is_empty advance head_byte
read_loop zero p = (p, [])
read_loop (suc n) p =
    let rest = read_loop n (advance p) in
    if is_empty p then (p, []) else (rest.0, head_byte p ∷ rest.1)

pub piperead : Bool → Pipe → ℕ → Pipe × ReadEnd
unfolding is_empty read_loop
piperead killed p n =
    if is_empty p && p.writeopen
    then (if killed then (p, read_failed) else (p, read_sleeps))
    else (let (p', out) = read_loop n p in (p', read_done out))

pub read_wakes : ReadEnd → List Chan
read_wakes (read_done xs) = nwrite_chan ∷ []
read_wakes read_failed = []
read_wakes read_sleeps = []

-- `pipeclose`: the pipe after it, the channel that it wakes, and whether it frees the page.
pub pipeclose : Pipe → Bool → Pipe × Chan × Bool
pipeclose p writable =
    if writable
    then (record p { writeopen = false }, nread_chan, not p.readopen)
    else (record p { readopen = false }, nwrite_chan, not p.writeopen)
