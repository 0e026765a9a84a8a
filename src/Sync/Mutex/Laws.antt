-- ===== src/Sync/Mutex/Laws.antt =====
-- Mutual exclusion, and no lost wakeup.
use operating_systems_cs.Prelude.{ℕ, ◌≡◌, ◌⊎◌, inl, inr, arith, ◌==◌, eq_of_eqb, Bool-cases}
use operating_systems_cs.Sync.Mutex.{
  outside, asleep, woken, holding, System, start, acquire, release, killed, Step, acquire_step,
  release_step, kill_step, Reach, begin, next,
}

pub record Owned (s : System) : Type 0 where
  pub locked : (i : ℕ) → s.phase i ≡ holding → s.value ≡ 1
  pub unique : (i j : ℕ) → s.phase i ≡ holding → s.phase j ≡ holding → i ≡ j
  pub owner : s.value ≡ 1 → (i : ℕ) × (s.phase i ≡ holding)
  pub sleepers : (i : ℕ) → s.phase i ≡ asleep → s.value ≡ 1

acquire-Owned :
    (i : ℕ) (s : System)
    → (s.phase i ≡ outside) ⊎ (s.phase i ≡ woken)
    → Owned s
    → Owned (acquire i s)
unfolding acquire
acquire-Owned i s h o = record {
  locked = λ j e. ground (arith, o.locked j);
  unique = λ j k e f. ground (arith, o.locked j, o.locked k, o.unique j k);
  owner = λ e. acquire_owner;
  sleepers = λ j e. ground (arith, o.sleepers j, o.locked i);
}
  where
    acquire_owner : (j : ℕ) × ((acquire i s).phase j ≡ holding)
    acquire_owner = elim (Bool-cases (s.value == 1)) [
      | inl busy ↦ let (j, f) = o.owner (eq_of_eqb s.value 1 busy) in (j, ground arith)
      | inr open_lock ↦ (i, ground arith)
    ]

release-Owned : (i : ℕ) (s : System) → s.phase i ≡ holding → Owned s → Owned (release i s)
unfolding release
release-Owned i s h o = record {
  locked = λ j e. ground (arith, o.unique i j);
  unique = λ j k e f. ground (arith, o.unique j k, o.unique i j);
  owner = λ e. cc;
  sleepers = λ j e. ground arith;
}

killed-Owned : (i : ℕ) (s : System) → Owned s → Owned (killed i s)
unfolding killed
killed-Owned i s o = record {
  locked = λ j e. ground (arith, o.locked j);
  unique = λ j k e f. ground (arith, o.unique j k);
  owner = λ e. (let (j, f) = o.owner e in (j, ground arith));
  sleepers = λ j e. ground (arith, o.sleepers j);
}

Step-Owned : {s t : System} → Step s t → Owned s → Owned t
Step-Owned {s} (acquire_step i h e) o = rw e (acquire-Owned i s h o)
Step-Owned {s} (release_step i h e) o = rw e (release-Owned i s h o)
Step-Owned {s} (kill_step i e) o = rw e (killed-Owned i s o)

start-Owned : Owned start
unfolding start
start-Owned = record {
  locked = λ i e. cc;
  unique = λ i j e f. cc;
  owner = λ e. cc;
  sleepers = λ i e. cc;
}

pub Reach-Owned : {s : System} → Reach s → Owned s
Reach-Owned (begin e) = rw e start-Owned
Reach-Owned (next r st) = Step-Owned st (Reach-Owned r)

-- From a lock initialised to 0, with processes that release it only when they hold it: however they
-- acquire, sleep, are woken and are killed, two of them never hold it together.
pub mutual_exclusion :
    {s : System} → Reach s → (i j : ℕ) → s.phase i ≡ holding → s.phase j ≡ holding → i ≡ j
mutual_exclusion r i j e f = (Reach-Owned r).unique i j e f

-- No wakeup is lost: in every reachable state, while a process sleeps in `lock_acquire` some process
-- holds the lock, and its release will wake the sleeper.
pub mutex_no_lost_wakeup :
    {s : System}
    → Reach s
    → (i : ℕ) → s.phase i ≡ asleep
    → (j : ℕ) × (s.phase j ≡ holding) × ((release j s).phase i ≡ woken)
unfolding release
mutex_no_lost_wakeup r i e =
    let (j, f) = (Reach-Owned r).owner ((Reach-Owned r).sleepers i e) in (j, f, ground arith)
