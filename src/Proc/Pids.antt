-- ===== src/Proc/Pids.antt =====
-- No two live processes have the same pid.
use operating_systems_cs.Prelude.{
  ℕ, ◌+◌, ◌%◌, ◌^◌, ◌<◌, ◌≡◌, refl, sym, ◌∙◌, inl, inr, Bool, true, false, ◌&&◌, arith, ◌==◌,
  if◌then◌else◌, Bool-cases, eq_of_eqb, Option, Option-cases, update, find,
}
use operating_systems_cs.Proc.{
  nproc, State, unused, embryo, sleeping, runnable, running, zombie, is, Proc, Procs, Table,
  is_child, allocproc, fork_into, wakeup1, wakeup, exited, wait, sleep, yield, kill,
}
use operating_systems_cs.Proc.States.{
  Step, alloc_step, fork_step, exit_step, wait_step, sleep_step, yield_step, wakeup_step, run_step,
  kill_step, Woken, wakeup1-Woken, passed, passed-Woken, exit-some, scheduler-some,
}

abbrev pub live : Proc → Bool
live p = elim (is unused p.state) [ true ↦ false | false ↦ true ]

pub record Distinct (t : Table) : Type 0 where
  pub below : (i : ℕ) → live (t.procs i) ≡ true → (t.procs i).pid < t.nextpid
  pub unique :
      (i j : ℕ)
      → live (t.procs i) ≡ true
      → live (t.procs j) ≡ true
      → (t.procs i).pid ≡ (t.procs j).pid
      → i ≡ j

-- Every live slot was live before, with the same pid.
abbrev Kept : Procs → Procs → Type 0
Kept ps qs = (j : ℕ) → live (qs j) ≡ true → (live (ps j) ≡ true) × ((qs j).pid ≡ (ps j).pid)

Kept-Distinct :
    (t : Table) (qs : Procs) → Kept t.procs qs → Distinct t → Distinct (record t { procs = qs })
Kept-Distinct t qs k d = record {
  below = λ i h. omega (arith, (k i h).1, d.below i (k i h).0);
  unique = λ i j h h' e. d.unique i j (k i h).0 (k j h').0 (sym (k i h).1 ∙ e ∙ (k j h').1);
}

Kept-refl : (ps : Procs) → Kept ps ps
Kept-refl ps j h = (h, refl)

Kept-update :
    (ps : Procs) (i : ℕ) (p : Proc)
    → (live p ≡ true → (live (ps i) ≡ true) × (p.pid ≡ (ps i).pid))
    → Kept ps (update ps i p)
Kept-update ps i p h j = elim (Bool-cases (i == j)) [
  | inl same ↦ rw (same, ← eq_of_eqb i j same) h
  | inr other ↦ rw other (λ l. (l, refl))
]

Woken-live : (p q : Proc) → Woken p q → live q ≡ true → (live p ≡ true) × (q.pid ≡ p.pid)
Woken-live p q w h = (ground (arith, w.moved), w.same_pid)

-- A free slot gets the next pid.
alloc-Distinct :
    (t : Table) (i : ℕ) (p : Proc)
    → t.nextpid + 1 < 2 ^ 32
    → p.pid ≡ t.nextpid
    → Distinct t
    → Distinct (record t { procs = update t.procs i p; nextpid = (t.nextpid + 1) % 2 ^ 32 })
alloc-Distinct t i p room e d = record {
  below = λ j h. elim (Bool-cases (i == j)) [
    | inl same ↦ rw same (omega arith)
    | inr other ↦ rw other (omega (arith, d.below j (rw other at h)))
  ];
  unique = λ j k h h' same_pid. elim (Bool-cases (i == j)) [
    | inl ej ↦ elim (Bool-cases (i == k)) [
      | inl ek ↦ sym (eq_of_eqb i j ej) ∙ eq_of_eqb i k ek
      | inr ek ↦
          let old = d.below k (rw ek at h') in
          let clash : p.pid ≡ (t.procs k).pid = rw (ej, ek) at same_pid in absurd (omega arith)
    ]
    | inr ej ↦ elim (Bool-cases (i == k)) [
      | inl ek ↦
          let old = d.below j (rw ej at h) in
          let clash : (t.procs j).pid ≡ p.pid = rw (ej, ek) at same_pid in absurd (omega arith)
      | inr ek ↦ d.unique j k (rw ej at h) (rw ek at h') (rw (ej, ek) at same_pid)
    ]
  ];
}

allocproc-Distinct :
    (stack : Option ℕ) (t : Table)
    → t.nextpid + 1 < 2 ^ 32
    → Distinct t
    → Distinct (allocproc stack t).0
unfolding allocproc
allocproc-Distinct stack t room d =
    elim (Option-cases (find nproc 0 (λ i. is unused (t.procs i).state))) [
      | inl e ↦ rw (e, allocproc) d
      | inr (i, e) ↦ elim (Option-cases stack) [
        | inl fails ↦ rw (e, fails, allocproc) (alloc-Distinct t i _ room refl d)
        | inr (page, got) ↦ rw (e, got, allocproc) (alloc-Distinct t i _ room refl d)
      ]
    ]

wait-Distinct :
    (cur : ℕ) (t : Table) → (t.procs cur).state ≡ running → Distinct t → Distinct (wait cur t).0
unfolding wait
wait-Distinct cur t h d =
    elim (Option-cases
      (find nproc 0 (λ i. is_child cur (t.procs i) && is zombie (t.procs i).state))) [
        | inr (i, found) ↦
            rw (found, wait) (Kept-Distinct t _ (Kept-update t.procs i _ (λ l. cc)) d)
        | inl none_dead ↦ elim (Option-cases (find nproc 0 (λ i. is_child cur (t.procs i)))) [
          | inl none_left ↦ rw (none_dead, none_left, wait) d
          | inr (j, left) ↦ elim (Bool-cases (t.procs cur).killed) [
            | inl k ↦ rw (none_dead, left, k, wait) d
            | inr k ↦
                rw (none_dead, left, k, wait)
                  (Kept-Distinct t _ (Kept-update t.procs cur _ (λ l. (rw h, refl))) d)
          ]
        ]
      ]

killed-live : (s : State) → is unused (if is sleeping s then runnable else s) ≡ is unused s
killed-live unused = refl
killed-live embryo = refl
killed-live sleeping = refl
killed-live runnable = refl
killed-live running = refl
killed-live zombie = refl

kill-Distinct : (pid : ℕ) (t : Table) → Distinct t → Distinct (kill pid t).0
unfolding kill
kill-Distinct pid t d = elim (Option-cases (find nproc 0 (λ i. (t.procs i).pid == pid))) [
  | inl e ↦ rw (e, kill) d
  | inr (i, e) ↦
      rw (e, kill)
        (Kept-Distinct t _
          (Kept-update t.procs i _ (λ l. (ground (arith, killed-live (t.procs i).state), refl))) d)
]

-- Two live processes never have the same pid: every operation on the table keeps the pids of the live
-- processes distinct and below `nextpid`, as long as the pids do not run out.
pub Step-Distinct : (t u : Table) → Step t u → t.nextpid + 1 < 2 ^ 32 → Distinct t → Distinct u
unfolding fork_into sleep yield wakeup
Step-Distinct t u (alloc_step stack e) room d = rw e (allocproc-Distinct stack t room d)
Step-Distinct t u (fork_step cur i copied h e) room d = rw e (fork_case copied)
  where
    fork_case : (c : Bool) → Distinct (fork_into cur c i t).0
    fork_case true = Kept-Distinct t _ (Kept-update t.procs i _ (λ l. (rw h, refl))) d
    fork_case false = Kept-Distinct t _ (Kept-update t.procs i _ (λ l. cc)) d
Step-Distinct t u (exit_step cur h e) room d =
    rw (exit-some cur t u e) (Kept-Distinct t (exited cur (passed cur t)) exit_kept d)
  where
    exit_kept : Kept t.procs (exited cur (passed cur t))
    exit_kept j l = elim (Bool-cases (cur == j)) [
      | inl same ↦ (
        rw (← eq_of_eqb cur j same, h),
        rw (same, ← eq_of_eqb cur j same) (passed-Woken cur t cur).same_pid,
      )
      | inr other ↦
          let l' : live (passed cur t j) ≡ true = rw other at l in
          rw other (Woken-live (t.procs j) (passed cur t j) (passed-Woken cur t j) l')
    ]
Step-Distinct t u (wait_step cur h e) room d = rw e (wait-Distinct cur t h d)
Step-Distinct t u (sleep_step cur c h e) room d =
    rw e (Kept-Distinct t _ (Kept-update t.procs cur _ (λ l. (rw h, refl))) d)
Step-Distinct t u (yield_step cur h e) room d =
    rw e (Kept-Distinct t _ (Kept-update t.procs cur _ (λ l. (rw h, refl))) d)
Step-Distinct t u (wakeup_step c e) room d = rw e (
    Kept-Distinct t (wakeup1 c t.procs)
      (λ j. Woken-live (t.procs j) (wakeup1 c t.procs j) (wakeup1-Woken c t.procs j)) d)
Step-Distinct t u (run_step n i j e) room d =
    let (ready, moved) = scheduler-some n i j t u e in
    rw moved (Kept-Distinct t _ (Kept-update t.procs j _ (λ l. (rw ready, refl))) d)
Step-Distinct t u (kill_step pid e) room d = rw e (kill-Distinct pid t d)
