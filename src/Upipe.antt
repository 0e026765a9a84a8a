-- ===== src/Upipe.antt =====
-- project4/upipe.c: the user-level pipe in shared memory. Its lock is held from one `cond_wait` to the
-- next, so a call is cut there: a call that waits goes on with the bytes that are left. `count` and
-- the indices are ints, as 32-bit patterns, which wrap where they overflow; the remainder of a negative index is
-- negative, so that its byte is in front of `data`. The signals that a
-- call sends to the other side are not part of this model.
pub mod Counts
pub mod Tests
use operating_systems_cs.Prelude.{
  ℕ, zero, suc, ◌+◌, ◌-◌, ◌%◌, ◌^◌, Bool, true, false, List, [], ◌∷◌, ltb, ◌==◌, if◌then◌else◌,
  update,
}

-- `struct upipe`.
pub record Upipe : Type 0 where
  pub bytes : ℕ → ℕ
  pub read_index : ℕ
  pub write_index : ℕ
  pub count : ℕ
  pub size : ℕ

-- The fields as `upipe_create` sets them; the bytes are what the pages held.
pub create : ℕ → (ℕ → ℕ) → Upipe
create size page = record { bytes = page; read_index = 0; write_index = 0; count = 0; size = size }

-- `i % size` for the int `i`.
abbrev pub place : ℕ → ℕ → ℕ
place i size = if ltb i (2 ^ 31) then i % size else (2 ^ 32 - (2 ^ 32 - i) % size) % 2 ^ 32

-- `p->data[p->write_index++ % p->size] = c; p->count += 1`.
abbrev pub put : Upipe → ℕ → Upipe
put p c = record p {
  bytes = update p.bytes (place p.write_index p.size) c;
  write_index = (p.write_index + 1) % 2 ^ 32;
  count = (p.count + 1) % 2 ^ 32;
}

pub data WriteEnd : Type 0 where
  written : Upipe → WriteEnd
  write_waits : List ℕ → Upipe → WriteEnd

-- The loop of `upipe_write`, until it ends or waits on the condition of the full pipe.
pub upipe_write : List ℕ → Upipe → WriteEnd
upipe_write [] p = written p
upipe_write (c ∷ cs) p =
    let rest = upipe_write cs (put p c) in
    if p.count == p.size then write_waits (c ∷ cs) p else rest

abbrev pub take_byte : Upipe → Upipe
take_byte p = record p {
  read_index = (p.read_index + 1) % 2 ^ 32;
  count = (p.count + 2 ^ 32 - 1) % 2 ^ 32;
}

-- The second loop of `upipe_read`: the bytes that it copies to the buffer.
pub read_loop : ℕ → Upipe → List ℕ × Upipe
read_loop zero p = ([], p)
read_loop (suc n) p =
    let rest = read_loop n (take_byte p) in (p.bytes (place p.read_index p.size) ∷ rest.0, rest.1)

pub data ReadEnd : Type 0 where
  got : List ℕ → Upipe → ReadEnd
  read_waits : ReadEnd

pub upipe_read : ℕ → Upipe → ReadEnd
unfolding read_loop
upipe_read n p =
    if p.read_index == p.write_index then read_waits else got (read_loop n p).0 (read_loop n p).1
