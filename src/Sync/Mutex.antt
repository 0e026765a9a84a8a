-- ===== src/Sync/Mutex.antt =====
-- `lock_init`, `lock_acquire` and `lock_release` of project4/sysfile.c, and the three system calls
-- round them, on the `struct mutexlock` that their address stands for. `mlk->lock` is held from one
-- sleep to the next, so each round of the loop of `lock_acquire` is one step.
pub mod Laws
pub mod Tests
use operating_systems_cs.Prelude.{ℕ, ◌≡◌, ◌⊎◌, ◌==◌, if◌then◌else◌, Option, none, some, update}

-- `value` after `lock_init`.
pub lock_init : ℕ → ℕ
lock_init v = v

-- One round of `lock_acquire`: the new value, or `none` where the caller sleeps on `&mlk->value`.
pub lock_acquire : ℕ → Option ℕ
lock_acquire value = if value == 1 then none else some 1

-- `value` after `lock_release`, which wakes every sleeper first.
pub lock_release : ℕ → ℕ
lock_release value = 0

-- A process: outside, asleep in `lock_acquire`, woken there, or past it and not yet in
-- `lock_release`.
pub data Phase : Type 0 where
  outside asleep woken holding : Phase

-- `wakeup(&mlk->value)`, at each process.
pub wake : Phase → Phase
wake outside = outside
wake asleep = woken
wake woken = woken
wake holding = holding

pub record System : Type 0 where
  pub value : ℕ
  pub phase : ℕ → Phase

pub start : System
unfolding lock_init
start = record { value = lock_init 0; phase = λ _. outside }

-- A round of `lock_acquire` in process `i`.
pub acquire : ℕ → System → System
unfolding lock_acquire
acquire i s = elim (lock_acquire s.value) [
  | none ↦ record s { phase = update s.phase i asleep }
  | some v ↦ record { value = v; phase = update s.phase i holding }
]

pub release : ℕ → System → System
unfolding lock_release wake
release i s = record {
  value = lock_release s.value;
  phase = update (λ j. wake (s.phase j)) i outside;
}

-- `kill` makes a sleeper run again as well.
pub killed : ℕ → System → System
unfolding wake
killed i s = record s { phase = update s.phase i (wake (s.phase i)) }

-- A process calls `lock_release` only if it holds the lock.
pub data Step (s : System) (t : System) : Type 0 where
  acquire_step : (i : ℕ) → (s.phase i ≡ outside) ⊎ (s.phase i ≡ woken) → t ≡ acquire i s → Step s t
  release_step : (i : ℕ) → s.phase i ≡ holding → t ≡ release i s → Step s t
  kill_step : (i : ℕ) → t ≡ killed i s → Step s t

pub data Reach : System → Type 0 where
  begin : {s : System} → s ≡ start → Reach s
  next : {s t : System} → Reach s → Step s t → Reach t
