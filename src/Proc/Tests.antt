-- ===== src/Proc/Tests.antt =====
-- A table with a parent that waits and a child, and the theorems at it.
use operating_systems_cs.Prelude.{◌≡◌, refl, false, arith, none, some, update, find}
use operating_systems_cs.Proc.{
  nproc, unused, sleeping, runnable, running, zombie, no_chan, proc_chan, Proc, Table, exit, wait,
  reaped, yield, exited, parent_chan, wakeup1, reparent,
}
use operating_systems_cs.Proc.States.{Legal, Step, yield_step, Step-Legal}
use operating_systems_cs.Proc.Pids.{Distinct, Step-Distinct}
use operating_systems_cs.Proc.Exit.{exit_wakes_parent}

abbrev free_slot : Proc
free_slot = record {
  state = unused;
  pid = 0;
  parent = none;
  chan = no_chan;
  killed = false;
  kstack = none;
}

abbrev parent_proc : Proc
parent_proc = record {
  state = sleeping;
  pid = 1;
  parent = none;
  chan = proc_chan 0;
  killed = false;
  kstack = some 1;
}

abbrev child_proc : Proc
child_proc = record {
  state = running;
  pid = 2;
  parent = some 0;
  chan = no_chan;
  killed = false;
  kstack = some 2;
}

-- Slot 0 is init, and waits for the child in slot 1.
abbrev family : Table
family = record {
  procs = update (update (λ _. free_slot) 0 parent_proc) 1 child_proc;
  nextpid = 3;
  initproc = 0;
}

abbrev orphaned : Table
orphaned = record family {
  procs = exited 1 (reparent 1 0 nproc 0 (wakeup1 (parent_chan child_proc) family.procs));
}

family-exit : exit 1 family ≡ some orphaned
unfolding exit
family-exit = refl

waits_and_reaps : (wait 0 orphaned).1 ≡ reaped 2
unfolding wait find wakeup1 reparent
waits_and_reaps = refl

yields : Step family (yield 1 family)
yields = yield_step 1 refl refl

Step-Legal_example : Legal family.procs (yield 1 family).procs
Step-Legal_example = Step-Legal family (yield 1 family) yields

family-Distinct : Distinct family
family-Distinct = record { below = λ i h. ground arith; unique = λ i j h h' e. ground arith }

Step-Distinct_example : Distinct (yield 1 family)
Step-Distinct_example = Step-Distinct family (yield 1 family) yields (omega arith) family-Distinct

exit_wakes_parent_example :
    ((orphaned.procs 0).state ≡ runnable) × ((orphaned.procs 1).state ≡ zombie)
exit_wakes_parent_example =
    exit_wakes_parent 1 0 family orphaned family-exit refl refl refl (omega arith)
