-- ===== src/Files/Calls.antt =====
-- The system calls on descriptors, and the loops of `exit` and `fork`, keep the reference counts.
use operating_systems_cs.Prelude.{
  ℕ, zero, suc, ◌+◌, ◌≤◌, ◌<◌, ◌≡◌, ◌≢◌, refl, sym, ap, ◌∙◌, ◌⊎◌, inl, inr, true, arith, ltb, leb,
  ◌&&◌, ltb→lt, ◌==◌, if◌then◌else◌, Bool-cases, eq_of_eqb, Option, none, some, Option-cases,
  update, update_self, update_ne, find, find-some,
}
use operating_systems_cs.Files.{
  nofile, Ofile, is_free, Files, Result, panics, fails, returns, argfd, fdalloc, sys_dup, sys_close,
  close_all, dup_all,
}
use operating_systems_cs.Files.Tally.{nproc, holds, in_all-set}
use operating_systems_cs.Files.Counts.{
  Counted, Names, ref_pos, one_more, filedup-some, ref-one_more, close_fd_lem,
}

-- A free descriptor of process `p` is set to `f`, with one reference more.
pub link-Counted :
    (s : Files) (p fd f : ℕ)
    → p < nproc
    → fd < nofile
    → s.ofiles p fd ≡ none
    → Counted s
    → Counted (record {
      table = one_more f s.table;
      ofiles = update s.ofiles p (update (s.ofiles p) fd (some f));
    })
link-Counted s p fd f hp hfd free c = record {
  refs = λ g. omega (
    arith,
    in_all-set g s.ofiles p fd (some f) hp hfd,
    c.refs g,
    ref-one_more f s.table g,
    ap (holds g) free,
  );
}

free_none : (o : Option ℕ) → is_free o ≡ true → o ≡ none
free_none none h = refl
free_none (some f) h = cc

fdalloc_cases :
    (f : ℕ) (o : Ofile)
    → (fdalloc f o ≡ none)
      ⊎ ((fd : ℕ) × (fdalloc f o ≡ some (fd, update o fd (some f))) × (fd < nofile) × (o fd ≡ none))
unfolding fdalloc
fdalloc_cases f o = elim (Option-cases (find nofile 0 (λ fd. is_free (o fd)))) [
  | inl e ↦ inl (rw (e, fdalloc))
  | inr (fd, e) ↦
      let (hit, lo, hi) = find-some nofile 0 _ e in
      inr (fd, rw (e, fdalloc), omega arith, free_none (o fd) hit)
]

argfd_cases :
    (fd : ℕ) (o : Ofile)
    → (argfd fd o ≡ none) ⊎ ((f : ℕ) × (argfd fd o ≡ some f) × (fd < nofile) × (o fd ≡ some f))
unfolding argfd
argfd_cases fd o = elim (Bool-cases (ltb fd nofile)) [
  | inr out ↦ inl (rw out)
  | inl within ↦ elim (Option-cases (o fd)) [
    | inl e ↦ inl (rw within e)
    | inr (f, e) ↦ inr (f, rw within e, ltb→lt fd nofile within, e)
  ]
]

-- A result that is no panic, with a property of the state.
abbrev pub NoPanic : (Files → Type 0) → Result → Type 0
NoPanic P panics = ⊥
NoPanic P (fails s) = P s
NoPanic P (returns n s) = P s

-- `sys_dup` on any descriptor never panics, and keeps the count of every file equal to the number of
-- descriptors that name it, whether it fails or not.
pub sys_dup-Counted :
    (p fd : ℕ) (s : Files) → p < nproc → Counted s → NoPanic Counted (sys_dup p fd s)
unfolding sys_dup
sys_dup-Counted p fd s hp c = elim (argfd_cases fd (s.ofiles p)) [
  | inl bad ↦ rw (bad, sys_dup) c
  | inr (f, named, hfd, entry) ↦ elim (fdalloc_cases f (s.ofiles p)) [
    | inl full ↦ rw (named, full, sys_dup) c
    | inr (fd', got, hfd', free) ↦
        let up =
          filedup-some f s.table
            (ref_pos s p fd f c (record { process = hp; descriptor = hfd; entry = entry })) in
        rw (named, got, up, sys_dup) (link-Counted s p fd' f hp hfd' free c)
  ]
]

-- `sys_close` on any descriptor never panics, and keeps the count of every file equal to the number of
-- descriptors that name it, whether it fails or not.
pub sys_close-Counted :
    (p fd : ℕ) (s : Files) → p < nproc → Counted s → NoPanic Counted (sys_close p fd s)
unfolding sys_close
sys_close-Counted p fd s hp c = elim (argfd_cases fd (s.ofiles p)) [
  | inl bad ↦ rw (bad, sys_close) c
  | inr (f, named, hfd, entry) ↦
      let (s', closing, does, c', ofiles, last) =
        close_fd_lem s p fd f c (record { process = hp; descriptor = hfd; entry = entry }) in
      rw (named, does, sys_close) c'
]

-- What the loop of `exit` leaves of process `p`.
abbrev pub Cleared : ℕ → ℕ → ℕ → Files → Files → Type 0
Cleared p n fd s s' =
    (k : ℕ) → s'.ofiles p k ≡ (if leb fd k && ltb k (fd + n) then none else s.ofiles p k)

-- The loop of `exit` over the descriptors of a process never panics, keeps the counts, and leaves the
-- process with no descriptor in the range that it goes over.
pub close_all_lem :
    (p n fd : ℕ) (s : Files)
    → p < nproc
    → fd + n ≤ nofile
    → Counted s
    → (s' : Files) × (close_all p n fd s ≡ some s') × Counted s' × Cleared p n fd s s'
unfolding close_all
close_all_lem p zero fd s hp h c = (s, refl, c, λ k. ground arith)
close_all_lem p (suc n) fd s hp h c = elim (Option-cases (s.ofiles p fd)) [
  | inl e ↦
      let (s', does, c', gone) = close_all_lem p n (fd + 1) s hp (omega arith) c in
      (
        s',
        rw (e, close_all) does,
        c',
        λ k. gone k ∙ elim (Bool-cases (fd == k)) [
          | inl same ↦ rw (← eq_of_eqb fd k same, e) (ground arith)
          | inr other ↦ ground arith
        ],
      )
  | inr (f, e) ↦
      let named : Names s p fd f = record { process = hp; descriptor = omega arith; entry = e } in
      let (s1, closing, closes, c1, ofiles, last) = close_fd_lem s p fd f c named in
      let (s', does, c', gone) = close_all_lem p n (fd + 1) s1 hp (omega arith) c1 in
      let row : s1.ofiles p ≡ update (s.ofiles p) fd none =
        ap (λ g. g p) ofiles ∙ update_self s.ofiles p (update (s.ofiles p) fd none) in
      (
        s',
        rw (e, closes, close_all) does,
        c',
        λ k. gone k ∙ elim (Bool-cases (fd == k)) [
          | inl same ↦ rw (row, same) (ground arith)
          | inr other ↦ rw (row, other) (ground arith)
        ],
      )
]

-- The loop of `fork` over the descriptors of process `p`, for a process `q` that has none in the range,
-- never panics, keeps the counts, and copies exactly the descriptors in the range.
pub dup_all_lem :
    (p q n fd : ℕ) (s : Files)
    → p < nproc
    → q < nproc
    → p ≢ q
    → fd + n ≤ nofile
    → ((k : ℕ) → fd ≤ k → s.ofiles q k ≡ none)
    → Counted s
    → (s' : Files) × (dup_all p q n fd s ≡ some s')
      × Counted s'
      × (s'.ofiles p ≡ s.ofiles p)
      × ((k : ℕ)
          → s'.ofiles q k ≡ (if leb fd k && ltb k (fd + n) then s.ofiles p k else s.ofiles q k))
unfolding dup_all
dup_all_lem p q zero fd s hp hq ne h fresh c = (s, refl, c, refl, λ k. ground arith)
dup_all_lem p q (suc n) fd s hp hq ne h fresh c = elim (Option-cases (s.ofiles p fd)) [
  | inl e ↦
      let (s', does, c', same_p, copied) =
        dup_all_lem p q n (fd + 1) s hp hq ne (omega arith) (λ k lo. fresh k (omega arith)) c in
      (
        s',
        rw (e, dup_all) does,
        c',
        same_p,
        λ k. copied k ∙ elim (Bool-cases (fd == k)) [
          | inl same ↦ rw (← eq_of_eqb fd k same, e) (ground (arith, fresh fd (omega arith)))
          | inr other ↦ ground arith
        ],
      )
  | inr (f, e) ↦
      let named : Names s p fd f = record { process = hp; descriptor = omega arith; entry = e } in
      let up = filedup-some f s.table (ref_pos s p fd f c named) in
      let s1 : Files = record {
        table = one_more f s.table;
        ofiles = update s.ofiles q (update (s.ofiles q) fd (some f));
      } in
      let row : s1.ofiles q ≡ update (s.ofiles q) fd (some f) =
        update_self s.ofiles q (update (s.ofiles q) fd (some f)) in
      let parent : s1.ofiles p ≡ s.ofiles p =
        update_ne s.ofiles q p (update (s.ofiles q) fd (some f)) (λ x. ne (sym x)) in
      let c1 = link-Counted s q fd f hq (omega arith) (fresh fd (omega arith)) c in
      let later : (k : ℕ) → fd + 1 ≤ k → s1.ofiles q k ≡ none = λ k lo.
        ap (λ g. g k) row
        ∙ update_ne (s.ofiles q) fd k (some f) (omega arith)
        ∙ fresh k (omega arith) in
      let (s', does, c', same_p, copied) =
        dup_all_lem p q n (fd + 1) s1 hp hq ne (omega arith) later c1 in
      (
        s',
        rw (e, up, dup_all) does,
        c',
        same_p ∙ parent,
        λ k. copied k ∙ elim (Bool-cases (fd == k)) [
          | inl same ↦ rw (row, parent, ← eq_of_eqb fd k same, e) (ground arith)
          | inr other ↦ rw (row, parent, other) (ground arith)
        ],
      )
]
