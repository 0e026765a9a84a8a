-- ===== src/Proc/Kill.antt =====
-- `kill`, and the processes that do not exist.
use operating_systems_cs.Prelude.{
  ℕ, ◌<◌, ◌≡◌, ◌≢◌, refl, ap, ◌∙◌, ◌⊎◌, inl, inr, true, false, arith, ◌==◌, none, some,
  Option-cases, update, update_self, eq_of_eqb, find, find-some, find-none, find_at,
}
use operating_systems_cs.Proc.{
  nproc, unused, sleeping, is, Proc, Table, allocproc, kill, mark_killed,
}

kill-some :
    (pid i : ℕ) (t : Table)
    → find nproc 0 (λ j. (t.procs j).pid == pid) ≡ some i
    → kill pid t ≡ (record t { procs = update t.procs i (mark_killed (t.procs i)) }, true)
unfolding kill
kill-some pid i t e = rw (e, kill)

kill-none :
    (pid : ℕ) (t : Table)
    → find nproc 0 (λ j. (t.procs j).pid == pid) ≡ none
    → kill pid t ≡ (t, false)
unfolding kill
kill-none pid t e = rw (e, kill)

mark_killed-awake : (p : Proc) → (mark_killed p).state ≢ sleeping
mark_killed-awake p = ground arith

-- `kill` finds a process or changes nothing: if no slot of the table has the pid it returns -1 and
-- leaves the table; otherwise it returns 0, and a slot with the pid is marked as killed and does not
-- sleep.
pub kill_lem :
    (pid : ℕ) (t : Table)
    → ((kill pid t ≡ (t, false)) × ((i : ℕ) → i < nproc → (t.procs i).pid ≢ pid))
      ⊎ ((i : ℕ) × (i < nproc)
          × ((t.procs i).pid ≡ pid)
          × ((kill pid t).1 ≡ true)
          × (((kill pid t).0.procs i).killed ≡ true)
          × (((kill pid t).0.procs i).state ≢ sleeping))
kill_lem pid t = elim (Option-cases (find nproc 0 (λ i. (t.procs i).pid == pid))) [
  | inl e ↦ inl (
    kill-none pid t e,
    λ i lt same.
        ground
          (arith, find-none nproc 0 (λ i. (t.procs i).pid == pid) e i (omega arith) (omega arith)),
  )
  | inr (i, e) ↦
      let (hit, lo, hi) = find-some nproc 0 (λ i. (t.procs i).pid == pid) e in
      let done = kill-some pid i t e in
      let here = update_self t.procs i (mark_killed (t.procs i)) in
      inr (
        i,
        omega arith,
        eq_of_eqb (t.procs i).pid pid hit,
        ap (λ r. r.1) done,
        ap (λ r. (r.0.procs i).killed) done ∙ ap (λ p. p.killed) here,
        rw done (rw here (mark_killed-awake (t.procs i))),
      )
]

alloc_some :
    (i page : ℕ) (t : Table)
    → find nproc 0 (λ j. is unused (t.procs j).state) ≡ some i
    → ((allocproc (some page) t).1 ≡ some i)
      × ((((allocproc (some page) t).0).procs i).killed ≡ (t.procs i).killed)
unfolding allocproc
alloc_some i page t e = rw (e, allocproc) (refl, ap (λ p. p.killed) (update_self t.procs i _))

-- A free slot has pid 0, and `kill` does not look at the state of the slot that it finds: `kill` of pid
-- 0 returns 0 where the first slot with pid 0 is the first free one, and marks that slot as killed.
-- `allocproc` does not clear the mark, so the next process starts killed.
pub kill-unused :
    (t : Table) (i page : ℕ)
    → i < nproc
    → (t.procs i).state ≡ unused
    → (t.procs i).pid ≡ 0
    → ((j : ℕ) → j < i → (is unused (t.procs j).state ≡ false) × ((t.procs j).pid ≢ 0))
    → ((kill 0 t).1 ≡ true)
      × ((allocproc (some page) (kill 0 t).0).1 ≡ some i)
      × ((((allocproc (some page) (kill 0 t).0).0).procs i).killed ≡ true)
kill-unused t i page lt free nopid first = rw (kill-some 0 i t found) (
  refl,
  (alloc_some i page t1 free_again).0,
  (alloc_some i page t1 free_again).1 ∙ ap (λ p. p.killed) (update_self t.procs i _),
)
  where
    t1 : Table
    t1 = record t { procs = update t.procs i (mark_killed (t.procs i)) }

    found : find nproc 0 (λ j. (t.procs j).pid == 0) ≡ some i
    found =
        find_at nproc 0 i (λ j. (t.procs j).pid == 0) (omega arith) (omega arith) (ground arith)
          (λ k lo hi. ground (arith, first k hi))

    free_again : find nproc 0 (λ j. is unused (t1.procs j).state) ≡ some i
    free_again =
        find_at nproc 0 i (λ j. is unused (t1.procs j).state) (omega arith) (omega arith)
          (ground arith) (λ k lo hi. ground (arith, first k hi))
