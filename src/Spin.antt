-- ===== src/Spin.antt =====
-- project4/spinlock.c: a spin lock and the processors that use it. An atomic exchange and a store to the
-- lock are a step each; interrupt handlers are not steps here. `pcs` and `name` serve debugging only.
pub mod Interrupts
pub mod Exclusion
pub mod Tests
use operating_systems_cs.Prelude.{
  ℕ, zero, suc, ◌+◌, ◌-◌, ◌≡◌, ◌⊎◌, Bool, true, false, not, ◌&&◌, ◌||◌, ◌==◌, if◌then◌else◌, Option,
  none, some, update,
}

-- The fields of `struct cpu` that matter, and the interrupt flag of its processor.
pub record Cpu : Type 0 where
  pub iflag : Bool
  pub ncli : ℕ
  pub intena : Bool

pub pushcli : Cpu → Cpu
pushcli c = record {
  iflag = false;
  ncli = c.ncli + 1;
  intena = if c.ncli == 0 then c.iflag else c.intena;
}

-- `none` is a panic.
pub popcli : Cpu → Option Cpu
popcli c =
    if c.iflag || (c.ncli == 0)
    then none
    else some (record c { ncli = c.ncli - 1; iflag = (c.ncli - 1 == 0) && c.intena })

-- `struct spinlock`; `cpu` is 0, or `suc i` for processor `i`.
pub record Spinlock : Type 0 where
  pub locked : Bool
  pub cpu : ℕ

pub initlock : Spinlock
initlock = record { locked = false; cpu = 0 }

pub holding : ℕ → Spinlock → Bool
holding i lk = lk.locked && (lk.cpu == suc i)

-- Where a processor is: not in the lock's code, in the loop of `acquire`, past it, past its store of
-- `cpu`, past the store of 0 in `release`, or past its exchange.
pub data Phase : Type 0 where
  idle spinning taken held clearing freed panicked : Phase

pub record System : Type 0 where
  pub lock : Spinlock
  pub cpus : ℕ → Cpu
  pub phase : ℕ → Phase

-- `acquire` up to its loop.
pub enter : ℕ → System → System
unfolding pushcli holding
enter i s = record s {
  cpus = update s.cpus i (pushcli (s.cpus i));
  phase = update s.phase i (if holding i s.lock then panicked else spinning);
}

-- One round of the loop: the exchange of `locked` with 1.
pub spin : ℕ → System → System
spin i s = record s {
  lock = record s.lock { locked = true };
  phase = update s.phase i (if s.lock.locked then spinning else taken);
}

-- The rest of `acquire`.
pub own : ℕ → System → System
own i s = record s { lock = record s.lock { cpu = suc i }; phase = update s.phase i held }

-- `release` up to its exchange.
pub disown : ℕ → System → System
unfolding holding
disown i s =
    if holding i s.lock
    then record s { lock = record s.lock { cpu = 0 }; phase = update s.phase i clearing }
    else record s { phase = update s.phase i panicked }

pub unlock : ℕ → System → System
unlock i s = record s { lock = record s.lock { locked = false }; phase = update s.phase i freed }

-- `popcli` at the end of `release`.
pub leave : ℕ → System → System
unfolding popcli
leave i s = elim (popcli (s.cpus i)) [
  | none ↦ record s { phase = update s.phase i panicked }
  | some c ↦ record s { cpus = update s.cpus i c; phase = update s.phase i idle }
]

-- A processor calls `release` only after `acquire`.
pub data Step (s : System) (t : System) : Type 0 where
  enter_step : (i : ℕ) → s.phase i ≡ idle → t ≡ enter i s → Step s t
  spin_step : (i : ℕ) → s.phase i ≡ spinning → t ≡ spin i s → Step s t
  own_step : (i : ℕ) → s.phase i ≡ taken → t ≡ own i s → Step s t
  disown_step : (i : ℕ) → s.phase i ≡ held → t ≡ disown i s → Step s t
  unlock_step : (i : ℕ) → s.phase i ≡ clearing → t ≡ unlock i s → Step s t
  leave_step : (i : ℕ) → s.phase i ≡ freed → t ≡ leave i s → Step s t

-- A processor whose interrupts are on has no `pushcli` to undo.
abbrev pub Matched : Cpu → Type 0
Matched c = (c.ncli ≡ 0) ⊎ (c.iflag ≡ false)

pub data Reach : System → Type 0 where
  begin :
      {s : System}
      → s.lock ≡ initlock
      → ((i : ℕ) → s.phase i ≡ idle)
      → ((i : ℕ) → Matched (s.cpus i))
      → Reach s
  next : {s t : System} → Reach s → Step s t → Reach t
