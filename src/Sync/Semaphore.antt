-- ===== src/Sync/Semaphore.antt =====
-- `sys_sema_init`, `sys_sema_down` and `sys_sema_up` of project4/sysfile.c on the semaphore that their
-- address stands for (`Sync.Shared.page_slot`). `sp->lock` is held from one sleep to the next, so each
-- round of the loop of `sys_sema_down` is one step. `value` is an int, as a 32-bit pattern.
pub mod Laws
pub mod Tests
use operating_systems_cs.Prelude.{
  ℕ, ◌+◌, ◌-◌, ◌%◌, ◌^◌, ◌≡◌, ◌≢◌, ◌==◌, if◌then◌else◌, Option, none, some, update,
}

-- `value` after `sys_sema_init`.
pub sema_init : ℕ → ℕ
sema_init v = v

-- One round of `sys_sema_down`: the new value, or `none` where the caller sleeps on `&sp->value`.
pub sema_down : ℕ → Option ℕ
sema_down value = if value == 0 then none else some ((value + 2 ^ 32 - 1) % 2 ^ 32)

-- `value` after `sys_sema_up`, which wakes every sleeper first.
pub sema_up : ℕ → ℕ
sema_up value = (value + 1) % 2 ^ 32

-- A process as far as the semaphore goes: outside its loop, asleep in it, or woken and about to test
-- again.
pub data Phase : Type 0 where
  running asleep woken : Phase

-- `wakeup(&sp->value)`, at each process.
pub wake : Phase → Phase
wake running = running
wake asleep = woken
wake woken = woken

-- The semaphore, the processes, and how many calls of each kind have gone through.
pub record System : Type 0 where
  pub value : ℕ
  pub phase : ℕ → Phase
  pub ups : ℕ
  pub downs : ℕ

pub start : ℕ → System
unfolding sema_init
start v = record { value = sema_init v; phase = λ _. running; ups = 0; downs = 0 }

-- A round of `sys_sema_down` in process `i`.
pub down : ℕ → System → System
unfolding sema_down
down i s = elim (sema_down s.value) [
  | none ↦ record s { phase = update s.phase i asleep }
  | some v ↦ record s { value = v; phase = update s.phase i running; downs = s.downs + 1 }
]

pub up : System → System
unfolding sema_up wake
up s = record s { value = sema_up s.value; phase = λ j. wake (s.phase j); ups = s.ups + 1 }

-- `kill` makes a sleeper run again as well.
pub killed : ℕ → System → System
unfolding wake
killed i s = record s { phase = update s.phase i (wake (s.phase i)) }

pub data Step (s : System) (t : System) : Type 0 where
  down_step : (i : ℕ) → s.phase i ≢ asleep → t ≡ down i s → Step s t
  up_step : t ≡ up s → Step s t
  kill_step : (i : ℕ) → t ≡ killed i s → Step s t

pub data Reach (v : ℕ) : System → Type 0 where
  begin : {s : System} → s ≡ start v → Reach v s
  next : {s t : System} → Reach v s → Step s t → Reach v t
