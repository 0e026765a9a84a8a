-- ===== src/Upipe/Counts.antt =====
-- The counter of the user-level pipe: right for writes and for reads of what is there, and wrong after a
-- read of more.
use operating_systems_cs.Prelude.{
  ℕ, zero, suc, ◌+◌, ◌-◌, ◌%◌, ◌^◌, ◌≤◌, ◌<◌, ◌≡◌, refl, inl, inr, false, List, [], ◌∷◌, arith,
  ◌==◌, Bool-cases, length,
}
use operating_systems_cs.Upipe.{
  Upipe, put, WriteEnd, written, write_waits, upipe_write, take_byte, read_loop, got, upipe_read,
}

-- The count is the distance of the indices, in 32 bits, and at most the size.
pub record IsValid (p : Upipe) : Type 0 where
  pub size_pos : 0 < p.size
  pub size_lt : p.size < 2 ^ 31
  pub read_lt : p.read_index < 2 ^ 32
  pub counted : p.write_index ≡ (p.read_index + p.count) % 2 ^ 32
  pub fits : p.count ≤ p.size

put-IsValid : (p : Upipe) (c : ℕ) → IsValid p → (p.count == p.size) ≡ false → IsValid (put p c)
put-IsValid p c v room = record {
  size_pos = v.size_pos;
  size_lt = v.size_lt;
  read_lt = v.read_lt;
  counted = let h = v.counted in omega arith;
  fits = ground arith;
}

count-put : (p : Upipe) (c : ℕ) → IsValid p → (put p c).count ≡ p.count + 1
count-put p c v = omega arith

-- The state after writing `k` bytes: all of them, or as many as fit.
abbrev pub Wrote : Upipe → ℕ → WriteEnd → Type 0
Wrote p k (written q) = IsValid q × (q.size ≡ p.size) × (q.count ≡ p.count + k)
Wrote p k (write_waits rest q) =
    IsValid q × (q.size ≡ p.size) × (q.count ≡ p.size) × (p.count + k ≡ p.size + length rest)

Wrote-suc :
    (p q : Upipe) (k : ℕ) (x : WriteEnd)
    → q.size ≡ p.size
    → q.count ≡ p.count + 1
    → Wrote q k x
    → Wrote p (suc k) x
Wrote-suc p q k (written r) es ec (v, e, n) = (v, omega arith, omega arith)
Wrote-suc p q k (write_waits rest r) es ec (v, e, n, m) = (v, omega arith, omega arith, omega arith)

-- `upipe_write` on a valid pipe ends with all its bytes counted, or waits on a full pipe with exactly the
-- bytes left that did not fit; the pipe stays valid.
pub upipe_write_lem : (cs : List ℕ) (p : Upipe) → IsValid p → Wrote p (length cs) (upipe_write cs p)
unfolding upipe_write
upipe_write_lem [] p v = (v, refl, omega arith)
upipe_write_lem (c ∷ cs) p v = elim (Bool-cases (p.count == p.size)) [
  | inl full ↦ rw full (v, refl, ground arith, ground arith)
  | inr room ↦ rw room (
      Wrote-suc p (put p c) (length cs) (upipe_write cs (put p c)) refl (count-put p c v)
        (upipe_write_lem cs (put p c) (put-IsValid p c v room)))
]

-- What `n` rounds of the reading loop leave.
read_loop_lem :
    (n : ℕ) (p : Upipe)
    → p.count < 2 ^ 32
    → p.read_index < 2 ^ 32
    → n < 2 ^ 31
    → (length (read_loop n p).0 ≡ n)
      × ((read_loop n p).1.read_index ≡ (p.read_index + n) % 2 ^ 32)
      × ((read_loop n p).1.write_index ≡ p.write_index)
      × ((read_loop n p).1.size ≡ p.size)
      × ((read_loop n p).1.count ≡ (p.count + 2 ^ 32 - n) % 2 ^ 32)
unfolding read_loop
read_loop_lem zero p h hr hn = (refl, omega arith, refl, refl, omega arith)
read_loop_lem (suc n) p h hr hn =
    let (el, er, ew, es, ec) =
      read_loop_lem n (take_byte p) (omega arith) (omega arith) (omega arith) in
    (omega arith, omega arith, ew, es, omega arith)

-- `upipe_read` of `n` bytes from a valid pipe that holds at least `n`, and at least one, returns `n` bytes
-- and counts them off; the pipe stays valid.
pub upipe_read_lem :
    (n : ℕ) (p : Upipe)
    → IsValid p
    → 0 < p.count
    → n ≤ p.count
    → (bs : List ℕ) × (q : Upipe) × (upipe_read n p ≡ got bs q)
      × (length bs ≡ n)
      × IsValid q
      × (q.count + n ≡ p.count)
unfolding upipe_read
upipe_read_lem n p v pos h =
    let b : (p.read_index == p.write_index) ≡ false = ground arith in
    let (el, er, ew, es, ec) = read_loop_lem n p (omega arith) v.read_lt (omega arith) in
    (
      (read_loop n p).0,
      (read_loop n p).1,
      rw b refl,
      el,
      record {
        size_pos = omega arith;
        size_lt = omega arith;
        read_lt = omega arith;
        counted = omega arith;
        fits = omega arith;
      },
      omega arith,
    )

-- `upipe_read` of more bytes than a valid pipe that is not empty holds does not wait for them: it returns
-- `n` bytes at once, moves the reading index past the writing index, and leaves a negative count; as long as
-- the reading index does not overflow.
pub upipe_overread :
    (n : ℕ) (p : Upipe)
    → IsValid p
    → 0 < p.count
    → p.count < n
    → p.read_index + n < 2 ^ 31
    → (bs : List ℕ) × (q : Upipe) × (upipe_read n p ≡ got bs q)
      × (length bs ≡ n)
      × (q.write_index < q.read_index)
      × (2 ^ 31 ≤ q.count)
unfolding upipe_read
upipe_overread n p v pos h hn =
    let b : (p.read_index == p.write_index) ≡ false = ground arith in
    let (el, er, ew, es, ec) = read_loop_lem n p (omega arith) v.read_lt (omega arith) in
    ((read_loop n p).0, (read_loop n p).1, rw b refl, el, omega arith, omega arith)
