-- ===== src/Pipe/Fifo.antt =====
-- The sections of `pipewrite` and `piperead` against a bounded queue of bytes, and what any
-- interleaving of sections of writers and readers delivers.
use mathlib.Core.Path.{ap₂}
use operating_systems_cs.Prelude.{
  ℕ, zero, suc, ◌+◌, ◌-◌, ◌≡◌, refl, sym, ap, ◌∙◌, inl, inr, Bool, true, false, not, ◌&&◌, ◌||◌,
  List, [], ◌∷◌, ◌++◌, append-nil, append_assoc, arith, ◌==◌, if◌then◌else◌, Bool-cases, length,
  length-append, take, drop, take-nil, drop-nil, take-length, take-append-drop,
}
use operating_systems_cs.Pipe.{
  Pipe, pipesize, is_full, is_empty, put, advance, head_byte, WriteEnd, wrote, write_failed,
  write_sleeps, ReadEnd, read_done, read_failed, read_sleeps, pipewrite, piperead, read_loop,
  pipeclose,
}
use operating_systems_cs.Pipe.Ring.{
  IsValid, count, contents, length-contents, is_full_iff, is_empty_iff, put-IsValid, count-put,
  advance-IsValid, contents-put, contents-advance,
}

-- How a write ends that has these bytes left.
abbrev pub finish : Bool → List ℕ → WriteEnd
finish stop [] = wrote
finish stop (x ∷ xs) = if stop then write_failed else write_sleeps (x ∷ xs)

-- A write of `xs` to the queue `q`: as many bytes as fit, and if some are left, -1 or a sleep.
abbrev pub queue_write : Bool → List ℕ → List ℕ → List ℕ × WriteEnd
queue_write stop q xs =
    (q ++ take (pipesize - length q) xs, finish stop (drop (pipesize - length q) xs))

-- A read of at most `n` bytes: the oldest ones, or none if the queue is empty and has a writer.
abbrev pub queue_read : Bool → Bool → List ℕ → ℕ → List ℕ × ReadEnd
queue_read killed open_end q n =
    if (length q == 0) && open_end
    then (q, if killed then read_failed else read_sleeps)
    else (drop n q, read_done (take n q))

abbrev pub Same : Pipe → Pipe → Type 0
Same p p' = (p'.readopen ≡ p.readopen) × (p'.writeopen ≡ p.writeopen)

put-Same : (p : Pipe) (x : ℕ) → Same p (put p x)
unfolding put
put-Same p x = (refl, refl)

advance-Same : (p : Pipe) → Same p (advance p)
unfolding advance
advance-Same p = (refl, refl)

-- What `pipewrite` has done, given `r` free bytes.
record Wrote (killed : Bool) (p : Pipe) (xs : List ℕ) (r : ℕ) (out : Pipe × WriteEnd) : Type 0 where
  valid : IsValid out.0
  same : Same p out.0
  queue : contents out.0 ≡ contents p ++ take r xs
  ended : out.1 ≡ finish (not p.readopen || killed) (drop r xs)

full_room : (p : Pipe) (r : ℕ) → IsValid p → r + count p ≡ pipesize → is_full p ≡ true → r ≡ 0
full_room p r v e full = ground (arith, is_full_iff p v)

some_room :
    (p : Pipe) (r : ℕ)
    → IsValid p
    → r + count p ≡ pipesize
    → is_full p ≡ false
    → (s : ℕ) × (r ≡ suc s)
some_room p zero v e room = absurd (ground (arith, is_full_iff p v))
some_room p (suc s) v e room = (s, refl)

write_full :
    (killed : Bool) (p : Pipe) (x : ℕ) (xs : List ℕ) (r : ℕ)
    → IsValid p
    → r ≡ 0
    → is_full p ≡ true
    → Wrote killed p (x ∷ xs) r (pipewrite killed p (x ∷ xs))
unfolding pipewrite
write_full killed p x xs r v e full =
    rw (e, full)
      (record {
        valid = ground arith;
        same = ground arith;
        queue = ground (arith, append-nil (contents p));
        ended = ground arith;
      })

pipewrite-Wrote :
    (killed : Bool) (p : Pipe) (xs : List ℕ) (r : ℕ)
    → IsValid p
    → r + count p ≡ pipesize
    → Wrote killed p xs r (pipewrite killed p xs)
unfolding pipewrite
pipewrite-Wrote killed p [] r v e = record {
  valid = v;
  same = (refl, refl);
  queue = rw (take-nil r, append-nil (contents p));
  ended = rw (drop-nil r);
}
pipewrite-Wrote killed p (x ∷ xs) r v e = elim (Bool-cases (is_full p)) [
  | inl full ↦ write_full killed p x xs r v (full_room p r v e full) full
  | inr room ↦
      let (s, pos) = some_room p r v e room in
      let ih =
        pipewrite-Wrote killed (put p x) xs s (put-IsValid p x v room)
          (omega (arith, count-put p x v room)) in
      let same = put-Same p x in
      rw (room, pos)
        (record {
          valid = ih.valid;
          same = (ih.same.0 ∙ same.0, ih.same.1 ∙ same.1);
          queue =
              ih.queue
              ∙ ap (λ q. q ++ take s xs) (contents-put p x v room)
              ∙ append_assoc (contents p) (x ∷ []) (take s xs);
          ended = ih.ended ∙ ap (λ b. finish (not b || killed) (drop s xs)) same.0;
        })
]

room_of : (p : Pipe) → IsValid p → pipesize - length (contents p) + count p ≡ pipesize
room_of p v = omega (arith, length-contents p)

-- A section of `pipewrite` on a valid pipe leaves it valid, with its two flags as they were; it is
-- the write of the bytes to the queue of the pipe's contents, and ends as that does: with n if all
-- fit, with -1 if not and the reader is gone or the caller killed, and asleep with the rest otherwise.
pub pipewrite_refines :
    (killed : Bool) (p : Pipe) (xs : List ℕ)
    → IsValid p
    → let (p', out) = pipewrite killed p xs in
      IsValid p'
      × Same p p'
      × ((contents p', out) ≡ queue_write (not p.readopen || killed) (contents p) xs)
pipewrite_refines killed p xs v =
    let w = pipewrite-Wrote killed p xs (pipesize - length (contents p)) v (room_of p v) in
    (w.valid, w.same, ap₂ (λ a b. (a, b)) w.queue w.ended)

-- What the loop of `piperead` has done.
record ReadOut (p : Pipe) (n : ℕ) (out : Pipe × List ℕ) : Type 0 where
  valid : IsValid out.0
  same : Same p out.0
  left : contents out.0 ≡ drop n (contents p)
  got : out.1 ≡ take n (contents p)

contents_empty : (p : Pipe) → IsValid p → is_empty p ≡ true → contents p ≡ []
contents_empty p v e =
    let none_left : count p ≡ 0 = ground (arith, is_empty_iff p v) in rw none_left

read_loop-ReadOut : (n : ℕ) (p : Pipe) → IsValid p → ReadOut p n (read_loop n p)
unfolding read_loop
read_loop-ReadOut zero p v = record { valid = v; same = (refl, refl); left = refl; got = refl }
read_loop-ReadOut (suc n) p v = elim (Bool-cases (is_empty p)) [
  | inl e ↦ rw e (record {
    valid = v;
    same = (refl, refl);
    left = rw (contents_empty p v e);
    got = rw (contents_empty p v e);
  })
  | inr more ↦
      let ih = read_loop-ReadOut n (advance p) (advance-IsValid p v more) in
      let same = advance-Same p in
      rw more (record {
        valid = ih.valid;
        same = (ih.same.0 ∙ same.0, ih.same.1 ∙ same.1);
        left = ih.left ∙ sym (ap (drop (suc n)) (contents-advance p v more));
        got =
            ap (λ xs. head_byte p ∷ xs) ih.got
            ∙ sym (ap (take (suc n)) (contents-advance p v more));
      })
]

-- A section of `piperead` on a valid pipe leaves it valid, with its two flags as they were; it is
-- the read of at most n bytes from the queue of the pipe's contents: the oldest bytes are returned
-- and removed, and an empty pipe that has a writer gives -1 to a killed caller and a sleep to others.
pub piperead_refines :
    (killed : Bool) (p : Pipe) (n : ℕ)
    → IsValid p
    → let (p', out) = piperead killed p n in
      IsValid p' × Same p p' × ((contents p', out) ≡ queue_read killed p.writeopen (contents p) n)
unfolding piperead
piperead_refines killed p n v =
    let o = read_loop-ReadOut n p v in
    ground (arith, is_empty_iff p v, length-contents p, o.valid, o.same, o.left, o.got)

-- What the users of a pipe do to it: sections of writes and reads by any process, and closes.
pub data Op : Type 0 where
  write : Bool → List ℕ → Op
  read : Bool → ℕ → Op
  close : Bool → Op

-- The bytes that a section copies out.
abbrev pub delivered : ReadEnd → List ℕ
delivered (read_done xs) = xs
delivered read_failed = []
delivered read_sleeps = []

-- The pipe after a section, the bytes that it took in and the bytes that it gave out.
pub exec : Op → Pipe → Pipe × List ℕ × List ℕ
exec (write killed xs) p =
    let (p', out) = pipewrite killed p xs in (p', take (count p' - count p) xs, [])
exec (read killed n) p = let (p', out) = piperead killed p n in (p', [], delivered out)
exec (close writable) p = ((pipeclose p writable).0, [], [])

pub run : List Op → Pipe → Pipe × List ℕ × List ℕ
unfolding exec
run [] p = (p, [], [])
run (o ∷ os) p =
    let (p', ins, outs) = exec o p in
    let (q, ins', outs') = run os p' in (q, ins ++ ins', outs ++ outs')

record Conserves (p : Pipe) (out : Pipe × List ℕ × List ℕ) : Type 0 where
  valid : IsValid out.0
  bytes : contents p ++ out.1 ≡ out.2 ++ contents out.0

taken :
    (p p' : Pipe) (xs : List ℕ)
    → contents p' ≡ contents p ++ take (pipesize - length (contents p)) xs
    → take (count p' - count p) xs ≡ take (pipesize - length (contents p)) xs
taken p p' xs e = rw (sized) (take-length (pipesize - length (contents p)) xs)
  where
    sized : count p' - count p ≡ length (take (pipesize - length (contents p)) xs)
    sized = omega (
      arith,
      length-contents p,
      length-contents p',
      ap length e,
      length-append (contents p) (take (pipesize - length (contents p)) xs),
    )

delivered-append :
    (killed open_end : Bool) (q : List ℕ) (n : ℕ)
    → q ≡ delivered (queue_read killed open_end q n).1 ++ (queue_read killed open_end q n).0
delivered-append killed open_end q n = ground (arith, take-append-drop n q)

close-Conserves :
    (writable : Bool) (p : Pipe) → IsValid p → Conserves p ((pipeclose p writable).0, [], [])
unfolding pipeclose
close-Conserves true p v = record { valid = ground arith; bytes = append-nil (contents p) }
close-Conserves false p v = record { valid = ground arith; bytes = append-nil (contents p) }

exec-Conserves : (o : Op) (p : Pipe) → IsValid p → Conserves p (exec o p)
unfolding exec
exec-Conserves (write killed xs) p v =
    let (valid, same, e) = pipewrite_refines killed p xs v in
    record {
      valid = valid;
      bytes =
          ap (λ ys. contents p ++ ys) (taken p (pipewrite killed p xs).0 xs (ap (λ t. t.0) e))
          ∙ sym (ap (λ t. t.0) e);
    }
exec-Conserves (read killed n) p v =
    let (valid, same, e) = piperead_refines killed p n v in
    record {
      valid = valid;
      bytes =
          append-nil (contents p)
          ∙ delivered-append killed p.writeopen (contents p) n
          ∙ sym (ap (λ t. delivered t.1 ++ t.0) e);
    }
exec-Conserves (close writable) p v = close-Conserves writable p v

-- In any interleaving of sections of writers, readers and closes on a valid pipe, what has been read
-- followed by what the pipe holds is what it held followed by what the writers put in: no byte is
-- lost, doubled or reordered, also where the counters wrap; and the pipe stays valid.
pub run_fifo :
    (os : List Op) (p : Pipe)
    → IsValid p
    → let (q, ins, outs) = run os p in IsValid q × (contents p ++ ins ≡ outs ++ contents q)
unfolding run
run_fifo [] p v = (v, append-nil (contents p))
run_fifo (o ∷ os) p v =
    let c = exec-Conserves o p v in
    let ih = run_fifo os (exec o p).0 c.valid in
    let outs = (exec o p).2 in
    (
      ih.0,
      sym (append_assoc (contents p) (exec o p).1 (run os (exec o p).0).1)
          ∙ ap (λ xs. xs ++ (run os (exec o p).0).1) c.bytes
          ∙ append_assoc outs (contents (exec o p).0) (run os (exec o p).0).1
          ∙ ap (λ xs. outs ++ xs) ih.1
          ∙ sym (append_assoc outs (run os (exec o p).0).2 (contents (run os (exec o p).0).0)),
    )
