-- ===== src/Proc.antt =====
-- project4/proc.c: the process table and the operations on it. `ptable.lock` is held throughout each of
-- them, so each is one step; a process is known by its slot in the table. Left out are the page tables,
-- trap frames, contexts and stacks that the operations copy, and the open files (see `Files`).
pub mod States
pub mod Pids
pub mod Exit
pub mod Kill
pub mod Tests
use operating_systems_cs.Prelude.{
  ℕ, zero, suc, ◌+◌, ◌%◌, ◌^◌, Bool, true, false, not, ◌&&◌, ◌||◌, ◌==◌, if◌then◌else◌, Option,
  none, some, update, find,
}

abbrev pub nproc : ℕ
nproc = 64

-- `enum procstate`.
pub data State : Type 0 where
  unused embryo sleeping runnable running zombie : State

abbrev pub is : State → State → Bool
is unused unused = true
is embryo embryo = true
is sleeping sleeping = true
is runnable runnable = true
is running running = true
is zombie zombie = true
is _ _ = false

-- A wait channel: the address of a process, or any other address.
pub data Chan : Type 0 where
  no_chan : Chan
  proc_chan : ℕ → Chan
  addr_chan : ℕ → Chan

abbrev pub same_chan : Chan → Chan → Bool
same_chan no_chan no_chan = true
same_chan (proc_chan i) (proc_chan j) = i == j
same_chan (addr_chan i) (addr_chan j) = i == j
same_chan _ _ = false

-- `struct proc`; a stack or a parent that is 0 is `none`.
pub record Proc : Type 0 where
  pub state : State
  pub pid : ℕ
  pub parent : Option ℕ
  pub chan : Chan
  pub killed : Bool
  pub kstack : Option ℕ

abbrev pub Procs : Type 0
Procs = ℕ → Proc

-- `ptable`, `nextpid` and `initproc`.
pub record Table : Type 0 where
  pub procs : Procs
  pub nextpid : ℕ
  pub initproc : ℕ

abbrev pub is_child : ℕ → Proc → Bool
is_child cur p = elim p.parent [ none ↦ false | some i ↦ i == cur ]

-- `allocproc`, where `kalloc` gives `stack`: the slot, or `none` where it returns 0.
pub allocproc : Option ℕ → Table → Table × Option ℕ
allocproc stack t = elim (find nproc 0 (λ i. is unused (t.procs i).state)) [
  | none ↦ (t, none)
  | some i ↦ elim stack [
    | none ↦ (
      record t {
        procs = update t.procs i (record (t.procs i) { pid = t.nextpid });
        nextpid = (t.nextpid + 1) % 2 ^ 32;
      },
      none,
    )
    | some page ↦ (
      record t {
        procs =
            update t.procs i
              (record (t.procs i) { state = embryo; pid = t.nextpid; kstack = some page });
        nextpid = (t.nextpid + 1) % 2 ^ 32;
      },
      some i,
    )
  ]
]

-- The rest of `fork` in process `cur`, for the new process in slot `i`: `copied` says whether `copyuvm`
-- has found the memory. The pid, or `none` for -1.
pub fork_into : ℕ → Bool → ℕ → Table → Table × Option ℕ
fork_into cur copied i t =
    if copied
    then (
      record t {
        procs = update t.procs i (record (t.procs i) { parent = some cur; state = runnable });
      },
      some (t.procs i).pid,
    )
    else (
      record t { procs = update t.procs i (record (t.procs i) { kstack = none; state = unused }) },
      none,
    )

pub fork : ℕ → Option ℕ → Bool → Table → Table × Option ℕ
unfolding allocproc fork_into
fork cur stack copied t = elim (allocproc stack t).1 [
  | none ↦ ((allocproc stack t).0, none)
  | some i ↦ fork_into cur copied i (allocproc stack t).0
]

-- `wakeup1`, at each slot of the table.
pub wakeup1 : Chan → Procs → Procs
wakeup1 c ps i =
    if is sleeping (ps i).state && same_chan (ps i).chan c
    then record (ps i) { state = runnable }
    else ps i

pub wakeup : Chan → Table → Table
unfolding wakeup1
wakeup c t = record t { procs = wakeup1 c t.procs }

-- The loop of `exit` that passes the children of `cur` to init, with `n` slots to go from `i`.
pub reparent : ℕ → ℕ → ℕ → ℕ → Procs → Procs
unfolding wakeup1
reparent cur init zero i ps = ps
reparent cur init (suc n) i ps =
    let ps' = update ps i (record (ps i) { parent = some init }) in
    let ps'' = if is zombie (ps i).state then wakeup1 (proc_chan init) ps' else ps' in
    reparent cur init n (i + 1) (if is_child cur (ps i) then ps'' else ps)

-- The channel that the parent of `cur` sleeps on in `wait`.
abbrev pub parent_chan : Proc → Chan
parent_chan p = elim p.parent [ none ↦ no_chan | some i ↦ proc_chan i ]

-- `exit` in process `cur`, up to the jump into the scheduler; `none` is the panic "init exiting".
abbrev pub exited : ℕ → Procs → Procs
exited cur ps = update ps cur (record (ps cur) { state = zombie })

pub exit : ℕ → Table → Option Table
unfolding reparent
exit cur t =
    if cur == t.initproc
    then none
    else some (record t {
      procs =
          exited cur
            (reparent cur t.initproc nproc 0 (wakeup1 (parent_chan (t.procs cur)) t.procs));
    })

-- A round of the loop of `wait` in process `cur`: it reaps a child and returns its pid, returns -1, or
-- sleeps on itself.
pub data WaitEnd : Type 0 where
  reaped : ℕ → WaitEnd
  no_children waits : WaitEnd

abbrev pub freed : Proc → Proc
freed p = record p { state = unused; pid = 0; parent = none; killed = false; kstack = none }

pub wait : ℕ → Table → Table × WaitEnd
wait cur t = elim (find nproc 0 (λ i. is_child cur (t.procs i) && is zombie (t.procs i).state)) [
  | some i ↦ (record t { procs = update t.procs i (freed (t.procs i)) }, reaped (t.procs i).pid)
  | none ↦ elim (find nproc 0 (λ i. is_child cur (t.procs i))) [
    | none ↦ (t, no_children)
    | some j ↦ if (t.procs cur).killed then (t, no_children) else (
      record t {
        procs =
            update t.procs cur (record (t.procs cur) { chan = proc_chan cur; state = sleeping });
      },
      waits,
    )
  ]
]

-- `sleep`, up to the jump into the scheduler, and what it does when it comes back.
pub sleep : ℕ → Chan → Table → Table
sleep cur c t = record t {
  procs = update t.procs cur (record (t.procs cur) { chan = c; state = sleeping });
}

pub sleep_return : ℕ → Table → Table
sleep_return cur t = record t {
  procs = update t.procs cur (record (t.procs cur) { chan = no_chan });
}

pub yield : ℕ → Table → Table
yield cur t = record t { procs = update t.procs cur (record (t.procs cur) { state = runnable }) }

-- The next process that `scheduler` runs, from slot `i` on in a pass over the table.
pub scheduler : ℕ → ℕ → Table → Option (ℕ × Table)
scheduler n i t = elim (find n i (λ j. is runnable (t.procs j).state)) [
  | none ↦ none
  | some j ↦
      some (j, record t { procs = update t.procs j (record (t.procs j) { state = running }) })
]

-- What `kill` does to the process that it finds.
abbrev pub mark_killed : Proc → Proc
mark_killed p = record p {
  killed = true;
  state = if is sleeping p.state then runnable else p.state;
}

-- `kill`: whether it returns 0.
pub kill : ℕ → Table → Table × Bool
kill pid t = elim (find nproc 0 (λ i. (t.procs i).pid == pid)) [
  | none ↦ (t, false)
  | some i ↦ (record t { procs = update t.procs i (mark_killed (t.procs i)) }, true)
]
