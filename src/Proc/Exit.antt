-- ===== src/Proc/Exit.antt =====
-- What `exit` leaves to the parent, and to init.
use mathlib.Core.Path.{ap₂}
use operating_systems_cs.Prelude.{
  ℕ, zero, suc, ◌+◌, ◌≤◌, ◌<◌, ◌≡◌, ◌≢◌, refl, sym, ap, ◌∙◌, inl, inr, Bool, true, false, ◌&&◌,
  arith, ◌==◌, if◌then◌else◌, Bool-cases, eq_of_eqb, Option, none, some, update, update_self,
  update_ne,
}
use operating_systems_cs.Proc.{
  nproc, sleeping, runnable, zombie, is, Chan, no_chan, proc_chan, same_chan, Proc, Procs, Table,
  is_child, wakeup1, reparent, parent_chan, exited, exit,
}
use operating_systems_cs.Proc.States.{Woken, passed, exit-some, reparent-Woken}

wakeup1_parent : (c : Chan) (ps : Procs) (j : ℕ) → (wakeup1 c ps j).parent ≡ (ps j).parent
unfolding wakeup1
wakeup1_parent c ps j = ground arith

exited_parent : (cur : ℕ) (ps : Procs) (j : ℕ) → (exited cur ps j).parent ≡ (ps j).parent
exited_parent cur ps j = elim (Bool-cases (cur == j)) [
  | inl same ↦ rw (same, ← eq_of_eqb cur j same)
  | inr other ↦ rw other
]

not_init : (cur : ℕ) (t u : Table) → exit cur t ≡ some u → t.initproc ≢ cur
unfolding exit
not_init cur t u e same =
    let b : (cur == t.initproc) ≡ true = ground arith in
    let e' : ◌≡◌ {A = Option Table} none (some u) = rw (b, exit) at e in cc

-- A woken sleeper is runnable, and stays so through the rest of `exit`.
wakeup1_wakes :
    (c : Chan) (ps : Procs) (j : ℕ)
    → (ps j).state ≡ sleeping
    → same_chan (ps j).chan c ≡ true
    → (wakeup1 c ps j).state ≡ runnable
unfolding wakeup1
wakeup1_wakes c ps j e h = ground arith

Woken-runnable : (p q : Proc) → Woken p q → p.state ≡ runnable → q.state ≡ runnable
Woken-runnable p q w e = ground (arith, w.moved)

-- When a process exits whose parent sleeps in `wait`, the parent is runnable afterwards and the process is
-- a zombie.
pub exit_wakes_parent :
    (cur i : ℕ) (t u : Table)
    → exit cur t ≡ some u
    → (t.procs cur).parent ≡ some i
    → (t.procs i).state ≡ sleeping
    → (t.procs i).chan ≡ proc_chan i
    → i ≢ cur
    → ((u.procs i).state ≡ runnable) × ((u.procs cur).state ≡ zombie)
exit_wakes_parent cur i t u e up asleep on ne = rw (exit-some cur t u e) (
  ap (λ p. p.state) (update_ne (passed cur t) cur i _ (λ same. ne (sym same)))
      ∙ Woken-runnable (first i) (passed cur t i) (reparent-Woken cur t.initproc nproc 0 first i) (
          wakeup1_wakes (parent_chan (t.procs cur)) t.procs i asleep (
            ap₂ same_chan on (ap (λ o. elim o [ none ↦ no_chan | some k ↦ proc_chan k ]) up)
            ∙ ground arith)),
  ap (λ p. p.state) (update_self (passed cur t) cur _),
)
  where
    first : Procs
    first = wakeup1 (parent_chan (t.procs cur)) t.procs

-- A round of the loop, by whether slot `i` is a child and whether it is a zombie.
abbrev round : Bool → Bool → ℕ → ℕ → Procs → Procs
round child dead init i ps =
    if child
    then (if dead
        then wakeup1 (proc_chan init) (update ps i (record (ps i) { parent = some init }))
        else update ps i (record (ps i) { parent = some init }))
    else ps

set_parent :
    (init i : ℕ) (ps : Procs) (j : ℕ)
    → (update ps i (record (ps i) { parent = some init }) j).parent
      ≡ (if i == j then some init else (ps j).parent)
set_parent init i ps j = elim (Bool-cases (i == j)) [ inl same ↦ rw same | inr other ↦ rw other ]

round_parent :
    (child dead : Bool) (init i : ℕ) (ps : Procs) (j : ℕ)
    → (round child dead init i ps j).parent
      ≡ (if child && (i == j) then some init else (ps j).parent)
round_parent false dead init i ps j = refl
round_parent true false init i ps j = set_parent init i ps j
round_parent true true init i ps j =
    wakeup1_parent (proc_chan init) (update ps i (record (ps i) { parent = some init })) j
    ∙ set_parent init i ps j

abbrev names : ℕ → Option ℕ → Bool
names cur o = elim o [ none ↦ false | some i ↦ i == cur ]

round_keeps :
    (cur init i : ℕ) (child dead : Bool) (ps : Procs) (j : ℕ)
    → init ≢ cur
    → names cur (ps j).parent ≡ false
    → names cur (round child dead init i ps j).parent ≡ false
round_keeps cur init i child dead ps j ne h =
    ap (names cur) (round_parent child dead init i ps j) ∙ elim (Bool-cases (child && (i == j))) [
      | inl set ↦ rw set (ground arith)
      | inr kept ↦ rw kept h
    ]

round_passes :
    (cur init i : ℕ) (child dead : Bool) (ps : Procs)
    → init ≢ cur
    → names cur (ps i).parent ≡ child
    → names cur (round child dead init i ps i).parent ≡ false
round_passes cur init i true dead ps ne h =
    ap (names cur) (round_parent true dead init i ps i) ∙ ground arith
round_passes cur init i false dead ps ne h = h

reparent_keeps :
    (cur init n i : ℕ) (ps : Procs) (j : ℕ)
    → init ≢ cur
    → names cur (ps j).parent ≡ false
    → names cur (reparent cur init n i ps j).parent ≡ false
unfolding reparent
reparent_keeps cur init zero i ps j ne h = h
reparent_keeps cur init (suc n) i ps j ne h =
    reparent_keeps cur init n (i + 1) _ j ne
      (round_keeps cur init i (is_child cur (ps i)) (is zombie (ps i).state) ps j ne h)

passed_slot :
    (cur init : ℕ) (n i : ℕ) (ps : Procs) (j : ℕ)
    → init ≢ cur
    → i ≤ j
    → j < i + n
    → names cur (reparent cur init n i ps j).parent ≡ false
unfolding reparent
passed_slot cur init zero i ps j ne lo hi = absurd (omega arith)
passed_slot cur init (suc n) i ps j ne lo hi = elim (Bool-cases (i == j)) [
  | inl same ↦ rw (← eq_of_eqb i j same) (
      reparent_keeps cur init n (i + 1) _ i ne
        (round_passes cur init i (is_child cur (ps i)) (is zombie (ps i).state) ps ne refl))
  | inr later ↦ passed_slot cur init n (i + 1) _ j ne (ground arith) (omega arith)
]

-- After `exit` no slot of the table has the process as its parent any more.
pub exit_reparents :
    (cur : ℕ) (t u : Table)
    → exit cur t ≡ some u
    → (i : ℕ) → i < nproc
    → is_child cur (u.procs i) ≡ false
exit_reparents cur t u e i lt = rw (exit-some cur t u e) (
    ap (names cur) (exited_parent cur (passed cur t) i)
    ∙ passed_slot cur t.initproc nproc 0 (wakeup1 (parent_chan (t.procs cur)) t.procs) i
        (not_init cur t u e) (omega arith) (omega arith))
