-- ===== src/Proc/States.antt =====
-- The life cycle of a process: no operation takes a slot along an edge that is not in the diagram.
use operating_systems_cs.Prelude.{
  ℕ, zero, suc, ◌+◌, ◌%◌, ◌^◌, ◌≡◌, refl, sym, ◌∙◌, ◌⊎◌, inl, inr, Bool, true, false, ◌&&◌, arith,
  ◌==◌, if◌then◌else◌, Bool-cases, eq_of_eqb, Option, none, some, Option-cases, some_inj, update,
  find, find-some,
}
use operating_systems_cs.Proc.{
  nproc, State, unused, embryo, sleeping, runnable, running, zombie, is, Chan, proc_chan, Proc,
  Procs, Table, is_child, allocproc, fork_into, wakeup1, wakeup, reparent, parent_chan, exited,
  exit, wait, sleep, yield, scheduler, kill,
}

-- The diagram: allocation and its failure, readiness, the scheduler, yield, sleep and wakeup, exit and
-- wait; or no change.
abbrev pub edge : State → State → Bool
edge unused embryo = true
edge embryo unused = true
edge embryo runnable = true
edge runnable running = true
edge running runnable = true
edge running sleeping = true
edge running zombie = true
edge sleeping runnable = true
edge zombie unused = true
edge s t = is s t

abbrev pub Legal : Procs → Procs → Type 0
Legal ps qs = (j : ℕ) → edge (ps j).state (qs j).state ≡ true

edge_refl : (s : State) → edge s s ≡ true
edge_refl unused = refl
edge_refl embryo = refl
edge_refl sleeping = refl
edge_refl runnable = refl
edge_refl running = refl
edge_refl zombie = refl

is_iff : (s t : State) → is s t ≡ true → s ≡ t
is_iff s t h = ground arith

-- One slot gets a state along an edge.
Legal-update :
    (ps : Procs) (i : ℕ) (p : Proc) → edge (ps i).state p.state ≡ true → Legal ps (update ps i p)
Legal-update ps i p h j = elim (Bool-cases (i == j)) [
  | inl same ↦ rw (same, ← eq_of_eqb i j same) h
  | inr other ↦ rw other (edge_refl (ps j).state)
]

-- What a wakeup can do to a slot.
pub record Woken (p q : Proc) : Type 0 where
  pub same_pid : q.pid ≡ p.pid
  pub moved : (q.state ≡ p.state) ⊎ ((p.state ≡ sleeping) × (q.state ≡ runnable))

pub wakeup1-Woken : (c : Chan) (ps : Procs) (j : ℕ) → Woken (ps j) (wakeup1 c ps j)
unfolding wakeup1
wakeup1-Woken c ps j = record {
  same_pid = ground arith;
  moved = ground (arith, is_iff sleeping (ps j).state);
}

Woken-trans : (p q r : Proc) → Woken p q → Woken q r → Woken p r
Woken-trans p q r a b = record {
  same_pid = b.same_pid ∙ a.same_pid;
  moved = ground (arith, a.moved, b.moved);
}

set_parent-Woken :
    (init i : ℕ) (ps : Procs) (j : ℕ)
    → Woken (ps j) (update ps i (record (ps i) { parent = some init }) j)
set_parent-Woken init i ps j = elim (Bool-cases (i == j)) [
  | inl same ↦ rw (same, ← eq_of_eqb i j same) (record { same_pid = refl; moved = inl refl })
  | inr other ↦ rw other (record { same_pid = refl; moved = inl refl })
]

reparent_step-Woken :
    (child dead : Bool) (init i : ℕ) (ps : Procs) (j : ℕ)
    → Woken (ps j) (
        (if child
            then (if dead
                then wakeup1 (proc_chan init) (update ps i (record (ps i) { parent = some init }))
                else update ps i (record (ps i) { parent = some init }))
            else ps)
          j)
reparent_step-Woken false dead init i ps j = record { same_pid = refl; moved = inl refl }
reparent_step-Woken true false init i ps j = set_parent-Woken init i ps j
reparent_step-Woken true true init i ps j =
    Woken-trans _ _ _ (set_parent-Woken init i ps j)
      (wakeup1-Woken (proc_chan init) (update ps i (record (ps i) { parent = some init })) j)

pub reparent-Woken :
    (cur init n i : ℕ) (ps : Procs) (j : ℕ) → Woken (ps j) (reparent cur init n i ps j)
unfolding reparent
reparent-Woken cur init zero i ps j = record { same_pid = refl; moved = inl refl }
reparent-Woken cur init (suc n) i ps j =
    Woken-trans _ _ _
      (reparent_step-Woken (is_child cur (ps i)) (is zombie (ps i).state) init i ps j)
      (reparent-Woken cur init n (i + 1) _ j)

Woken-edge : (p q : Proc) → Woken p q → edge p.state q.state ≡ true
Woken-edge p q w = ground (arith, w.moved, edge_refl p.state)

-- The operations, each with what its callers guarantee of the slots that it is given.
pub data Step (t : Table) (u : Table) : Type 0 where
  alloc_step : (stack : Option ℕ) → u ≡ (allocproc stack t).0 → Step t u
  fork_step :
      (cur i : ℕ) (copied : Bool)
      → (t.procs i).state ≡ embryo
      → u ≡ (fork_into cur copied i t).0
      → Step t u
  exit_step : (cur : ℕ) → (t.procs cur).state ≡ running → exit cur t ≡ some u → Step t u
  wait_step : (cur : ℕ) → (t.procs cur).state ≡ running → u ≡ (wait cur t).0 → Step t u
  sleep_step : (cur : ℕ) (c : Chan) → (t.procs cur).state ≡ running → u ≡ sleep cur c t → Step t u
  yield_step : (cur : ℕ) → (t.procs cur).state ≡ running → u ≡ yield cur t → Step t u
  wakeup_step : (c : Chan) → u ≡ wakeup c t → Step t u
  run_step : (n i j : ℕ) → scheduler n i t ≡ some (j, u) → Step t u
  kill_step : (pid : ℕ) → u ≡ (kill pid t).0 → Step t u

Legal-refl : (ps : Procs) → Legal ps ps
Legal-refl ps j = edge_refl (ps j).state

alloc-Legal : (stack : Option ℕ) (t : Table) → Legal t.procs (allocproc stack t).0.procs
unfolding allocproc
alloc-Legal stack t = elim (Option-cases (find nproc 0 (λ i. is unused (t.procs i).state))) [
  | inl e ↦ rw (e, allocproc) (Legal-refl t.procs)
  | inr (i, e) ↦
      let free = is_iff unused (t.procs i).state (find-some nproc 0 _ e).0 in
      rw (e, allocproc) (at stack i (ground arith))
]
  where
    at :
        (o : Option ℕ) (i : ℕ)
        → (t.procs i).state ≡ unused
        → Legal t.procs (
            (elim o as (λ _. Table × Option ℕ) [
              | none ↦ (
                record t {
                  procs = update t.procs i (record (t.procs i) { pid = t.nextpid });
                  nextpid = (t.nextpid + 1) % 2 ^ 32;
                },
                none,
              )
              | some page ↦ (
                record t {
                  procs =
                      update t.procs i (record (t.procs i) {
                        state = embryo;
                        pid = t.nextpid;
                        kstack = some page;
                      });
                  nextpid = (t.nextpid + 1) % 2 ^ 32;
                },
                some i,
              )
            ]).0.procs)
    at none i free = Legal-update t.procs i _ (edge_refl (t.procs i).state)
    at (some page) i free = Legal-update t.procs i _ (rw free)

fork-Legal :
    (cur i : ℕ) (copied : Bool) (t : Table)
    → (t.procs i).state ≡ embryo
    → Legal t.procs (fork_into cur copied i t).0.procs
unfolding fork_into
fork-Legal cur i true t e = Legal-update t.procs i _ (rw e)
fork-Legal cur i false t e = Legal-update t.procs i _ (rw e)

-- The processes once `exit` has woken and passed on the family of `cur`.
abbrev pub passed : ℕ → Table → Procs
passed cur t = reparent cur t.initproc nproc 0 (wakeup1 (parent_chan (t.procs cur)) t.procs)

pub passed-Woken : (cur : ℕ) (t : Table) (j : ℕ) → Woken (t.procs j) (passed cur t j)
passed-Woken cur t j =
    Woken-trans _ _ _ (wakeup1-Woken (parent_chan (t.procs cur)) t.procs j)
      (reparent-Woken cur t.initproc nproc 0 (wakeup1 (parent_chan (t.procs cur)) t.procs) j)

pub exit-some :
    (cur : ℕ) (t u : Table)
    → exit cur t ≡ some u
    → u ≡ record t { procs = exited cur (passed cur t) }
unfolding exit
exit-some cur t u e = elim (Bool-cases (cur == t.initproc)) [
  | inl b ↦ let e' : ◌≡◌ {A = Option Table} none (some u) = rw (b, exit) at e in cc
  | inr b ↦
      let e' : ◌≡◌ {A = Option Table} (some (record t { procs = exited cur (passed cur t) }))
          (some u) =
        rw (b, exit) at e in
      sym (some_inj e')
]

exit-Legal :
    (cur : ℕ) (t : Table)
    → (t.procs cur).state ≡ running
    → Legal t.procs (exited cur (passed cur t))
exit-Legal cur t e j = elim (Bool-cases (cur == j)) [
  | inl same ↦ rw (same, ← eq_of_eqb cur j same, e)
  | inr other ↦ rw other (Woken-edge (t.procs j) (passed cur t j) (passed-Woken cur t j))
]

wait-Legal :
    (cur : ℕ) (t : Table) → (t.procs cur).state ≡ running → Legal t.procs (wait cur t).0.procs
unfolding wait
wait-Legal cur t e =
    elim (Option-cases
      (find nproc 0 (λ i. is_child cur (t.procs i) && is zombie (t.procs i).state))) [
        | inr (i, found) ↦
            let (hit, lo, hi) = find-some nproc 0 _ found in
            let dead : (t.procs i).state ≡ zombie =
              ground (arith, is_iff zombie (t.procs i).state) in
            rw (found, wait) (Legal-update t.procs i _ (rw dead))
        | inl none_dead ↦ elim (Option-cases (find nproc 0 (λ i. is_child cur (t.procs i)))) [
          | inl none_left ↦ rw (none_dead, none_left, wait) (Legal-refl t.procs)
          | inr (j, left) ↦ elim (Bool-cases (t.procs cur).killed) [
            | inl k ↦ rw (none_dead, left, k, wait) (Legal-refl t.procs)
            | inr k ↦ rw (none_dead, left, k, wait) (Legal-update t.procs cur _ (rw e))
          ]
        ]
      ]

pub scheduler-some :
    (n i j : ℕ) (t u : Table)
    → scheduler n i t ≡ some (j, u)
    → ((t.procs j).state ≡ runnable)
      × (u ≡ record t { procs = update t.procs j (record (t.procs j) { state = running }) })
unfolding scheduler
scheduler-some n i j t u e = elim (Option-cases (find n i (λ k. is runnable (t.procs k).state))) [
  | inl idle ↦ absurd (ground arith)
  | inr (k, found) ↦
      let (hit, lo, hi) = find-some n i _ found in
      let picked : ◌≡◌ {A = Option (ℕ × Table)}
          (some (k, record t { procs = update t.procs k (record (t.procs k) { state = running }) }))
          (some (j, u)) =
        rw (found, scheduler) at e in
      let same : k ≡ j = ground arith in
      (rw (← same) (sym (is_iff runnable (t.procs k).state hit)), rw (← same) (ground arith))
]

kill-Legal : (pid : ℕ) (t : Table) → Legal t.procs (kill pid t).0.procs
unfolding kill
kill-Legal pid t = elim (Option-cases (find nproc 0 (λ i. (t.procs i).pid == pid))) [
  | inl e ↦ rw (e, kill) (Legal-refl t.procs)
  | inr (i, e) ↦ rw (e, kill) (Legal-update t.procs i _ (killed-edge (t.procs i).state))
]
  where
    killed-edge : (s : State) → edge s (if is sleeping s then runnable else s) ≡ true
    killed-edge unused = refl
    killed-edge embryo = refl
    killed-edge sleeping = refl
    killed-edge runnable = refl
    killed-edge running = refl
    killed-edge zombie = refl

-- Every operation on the process table, called as the kernel calls it, takes every slot along an edge
-- of the life cycle UNUSED, EMBRYO, RUNNABLE, RUNNING, SLEEPING, ZOMBIE, or leaves its state.
pub Step-Legal : (t u : Table) → Step t u → Legal t.procs u.procs
unfolding sleep yield wakeup
Step-Legal t u (alloc_step stack e) = rw e (alloc-Legal stack t)
Step-Legal t u (fork_step cur i copied h e) = rw e (fork-Legal cur i copied t h)
Step-Legal t u (exit_step cur h e) = rw (exit-some cur t u e) (exit-Legal cur t h)
Step-Legal t u (wait_step cur h e) = rw e (wait-Legal cur t h)
Step-Legal t u (sleep_step cur c h e) = rw e (Legal-update t.procs cur _ (rw h))
Step-Legal t u (yield_step cur h e) = rw e (Legal-update t.procs cur _ (rw h))
Step-Legal t u (wakeup_step c e) =
    rw e (λ j. Woken-edge (t.procs j) (wakeup1 c t.procs j) (wakeup1-Woken c t.procs j))
Step-Legal t u (run_step n i j e) =
    let (ready, moved) = scheduler-some n i j t u e in
    rw moved (Legal-update t.procs j _ (rw ready))
Step-Legal t u (kill_step pid e) = rw e (kill-Legal pid t)
