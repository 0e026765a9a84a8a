-- ===== src/Files/Counts.antt =====
-- The reference count of a file is the number of descriptors that name it.
use operating_systems_cs.Prelude.{
  ℕ, ◌+◌, ◌-◌, ◌≤◌, ◌<◌, ◌≡◌, refl, ap, ◌∙◌, inl, inr, false, arith, ltb, ◌==◌, if◌then◌else◌,
  Bool-cases, eq_of_eqb, none, some, update, update_self,
}
use operating_systems_cs.Files.{
  nofile, fd_none, File, Ftable, Files, filedup, Closing, kept, closing_of, fileclose, close_fd,
}
use operating_systems_cs.Files.Tally.{nproc, holds, in_all, in_all-set}

pub record Counted (s : Files) : Type 0 where
  pub refs : (f : ℕ) → (s.table f).ref ≡ in_all f s.ofiles

-- A descriptor of a process names the file.
pub record Names (s : Files) (p fd f : ℕ) : Type 0 where
  pub process : p < nproc
  pub descriptor : fd < nofile
  pub entry : s.ofiles p fd ≡ some f

holds_self : (f : ℕ) → holds f (some f) ≡ 1
holds_self f = ground arith

pub ref_pos : (s : Files) (p fd f : ℕ) → Counted s → Names s p fd f → 1 ≤ (s.table f).ref
ref_pos s p fd f c n = omega (
  arith,
  c.refs f,
  in_all-set f s.ofiles p fd none n.process n.descriptor,
  ap (holds f) n.entry,
  holds_self f,
)

-- The table with one reference more.
abbrev pub one_more : ℕ → Ftable → Ftable
one_more f t = update t f (record (t f) { ref = (t f).ref + 1 })

pub filedup-some : (f : ℕ) (t : Ftable) → 1 ≤ (t f).ref → filedup f t ≡ some (one_more f t)
unfolding filedup
filedup-some f t h = let b : ltb (t f).ref 1 ≡ false = ground arith in rw b

pub ref-one_more :
    (f : ℕ) (t : Ftable) (g : ℕ) → (one_more f t g).ref ≡ (t g).ref + holds g (some f)
ref-one_more f t g = elim (Bool-cases (f == g)) [
  | inl same ↦ rw (same, ← eq_of_eqb f g same) (omega (arith, holds_self f))
  | inr other ↦ let b : (g == f) ≡ false = ground arith in rw (other, b) (omega arith)
]

-- What `fileclose` does to a file that has a reference.
pub record Closed (f : ℕ) (t t' : Ftable) (c : Closing) : Type 0 where
  pub does : fileclose f t ≡ some (t', c)
  pub refs : (g : ℕ) → (t' g).ref + holds g (some f) ≡ (t g).ref
  pub last : c ≡ (if (t' f).ref == 0 then closing_of (t f) else kept)

abbrev pub after_close : ℕ → Ftable → Ftable
after_close f t =
    if ltb 0 ((t f).ref - 1)
    then update t f (record (t f) { ref = (t f).ref - 1 })
    else update t f (record (t f) { ref = 0; type = fd_none })

refs-update :
    (f : ℕ) (t : Ftable) (p : File)
    → p.ref + 1 ≡ (t f).ref
    → (g : ℕ) → (update t f p g).ref + holds g (some f) ≡ (t g).ref
refs-update f t p e g = elim (Bool-cases (f == g)) [
  | inl same ↦ rw (same, ← eq_of_eqb f g same) (omega (arith, holds_self f))
  | inr other ↦ let b : (g == f) ≡ false = ground arith in rw (other, b) (omega arith)
]

pub fileclose-Closed :
    (f : ℕ) (t : Ftable) → 1 ≤ (t f).ref → (t' : Ftable) × (c : Closing) × Closed f t t' c
unfolding fileclose
fileclose-Closed f t h = elim (Bool-cases (ltb 0 ((t f).ref - 1))) [
  | inl more ↦
      let p = record (t f) { ref = (t f).ref - 1 } in
      let n : ((t f).ref - 1 == 0) ≡ false = ground arith in
      (
        update t f p,
        kept,
        record {
          does = rw (b, more);
          refs = refs-update f t p (omega arith);
          last = rw (ap (λ (q : File). q.ref) (update_self t f p)) (rw n);
        },
      )
  | inr one ↦
      let p = record (t f) { ref = 0; type = fd_none } in
      (
        update t f p,
        closing_of (t f),
        record {
          does = rw (b, one);
          refs = refs-update f t p (ground arith);
          last = rw (ap (λ (q : File). q.ref) (update_self t f p));
        },
      )
]
  where
    b : ltb (t f).ref 1 ≡ false
    b = ground arith

-- Closing a descriptor of a process does not panic, frees the descriptor, and keeps the counts; the
-- pipe or the inode behind the file is closed exactly when no descriptor names the file any more.
pub close_fd_lem :
    (s : Files) (p fd f : ℕ)
    → Counted s
    → Names s p fd f
    → (s' : Files) × (c : Closing) × (close_fd p fd f s ≡ some (s', c))
      × Counted s'
      × (s'.ofiles ≡ update s.ofiles p (update (s.ofiles p) fd none))
      × (c ≡ (if in_all f s'.ofiles == 0 then closing_of (s.table f) else kept))
unfolding close_fd
close_fd_lem s p fd f c n =
    let (t, closing, done) = fileclose-Closed f s.table (ref_pos s p fd f c n) in
    let os = update s.ofiles p (update (s.ofiles p) fd none) in
    let refs : (g : ℕ) → (t g).ref ≡ in_all g os = λ g. omega (
      arith,
      in_all-set g s.ofiles p fd none n.process n.descriptor,
      c.refs g,
      done.refs g,
      ap (holds g) n.entry,
    ) in
    (
      record { table = t; ofiles = os },
      closing,
      rw (done.does, close_fd),
      record { refs = refs },
      refl,
      done.last ∙ ap (λ m. if m == 0 then closing_of (s.table f) else kept) (refs f),
    )
