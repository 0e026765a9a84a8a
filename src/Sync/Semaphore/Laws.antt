-- ===== src/Sync/Semaphore/Laws.antt =====
-- The semaphore counts, and loses no wakeup.
use operating_systems_cs.Prelude.{ℕ, ◌+◌, ◌^◌, ◌≤◌, ◌<◌, ◌≡◌, refl, arith}
use operating_systems_cs.Sync.Semaphore.{
  asleep, System, start, down, up, killed, Step, down_step, up_step, kill_step, Reach, begin, next,
}

pub record Counted (v : ℕ) (s : System) : Type 0 where
  pub small : s.value < 2 ^ 32
  pub balance : v + s.ups < 2 ^ 32 → s.value + s.downs ≡ v + s.ups
  pub sleepers : (i : ℕ) → s.phase i ≡ asleep → s.value ≡ 0

ups-down : (i : ℕ) (s : System) → (down i s).ups ≡ s.ups
unfolding down
ups-down i s = ground arith

down-Counted : (v i : ℕ) (s : System) → Counted v s → Counted v (down i s)
unfolding down
down-Counted v i s c = record {
  small = ground (arith, c.small);
  balance = λ h. ground (arith, c.balance (omega (arith, ups-down i s)), c.small);
  sleepers = λ j e. ground (arith, c.sleepers j);
}

up-Counted : (v : ℕ) (s : System) → Counted v s → Counted v (up s)
unfolding up
up-Counted v s c = record {
  small = omega arith;
  balance = λ h. ground (arith, c.balance (omega arith), c.small);
  sleepers = λ j e. ground arith;
}

killed-Counted : (v i : ℕ) (s : System) → Counted v s → Counted v (killed i s)
unfolding killed
killed-Counted v i s c = record {
  small = c.small;
  balance = c.balance;
  sleepers = λ j e. ground (arith, c.sleepers j);
}

Step-Counted : {v : ℕ} {s t : System} → Step s t → Counted v s → Counted v t
Step-Counted {v} {s} (down_step i h e) c = rw e (down-Counted v i s c)
Step-Counted {v} {s} (up_step e) c = rw e (up-Counted v s c)
Step-Counted {v} {s} (kill_step i e) c = rw e (killed-Counted v i s c)

start-Counted : (v : ℕ) → v < 2 ^ 32 → Counted v (start v)
unfolding start
start-Counted v h = record { small = h; balance = λ _. refl; sleepers = λ i e. cc }

pub Reach-Counted : {v : ℕ} {s : System} → v < 2 ^ 32 → Reach v s → Counted v s
Reach-Counted {v} h (begin e) = rw e (start-Counted v h)
Reach-Counted h (next r st) = Step-Counted st (Reach-Counted h r)

-- From a semaphore initialised to v, however processes call `sys_sema_down` and `sys_sema_up`, sleep,
-- are woken and are killed: while v and the calls of `sys_sema_up` stay below 2 ^ 32, the value plus
-- the completed calls of `sys_sema_down` is v plus the calls of `sys_sema_up`, so no more calls of
-- `sys_sema_down` get through than that.
pub sema_counts :
    {v : ℕ} {s : System}
    → v < 2 ^ 32
    → Reach v s
    → v + s.ups < 2 ^ 32
    → (s.value + s.downs ≡ v + s.ups) × (s.downs ≤ v + s.ups)
sema_counts {v} {s} h r fits = omega (arith, (Reach-Counted h r).balance fits)

-- No wakeup is lost: in every state that the processes can reach, a process sleeps in
-- `sys_sema_down` only while the value is 0.
pub sema_no_lost_wakeup :
    {v : ℕ} {s : System} → v < 2 ^ 32 → Reach v s → (i : ℕ) → s.phase i ≡ asleep → s.value ≡ 0
sema_no_lost_wakeup h r i e = (Reach-Counted h r).sleepers i e
