-- ===== src/Sync/Mutex/Tests.antt =====
-- A run of two processes on a lock, and the theorems at it.
use operating_systems_cs.Prelude.{ℕ, ◌≡◌, refl, inl}
use operating_systems_cs.Sync.Mutex.{
  System, asleep, holding, woken, start, acquire, release, acquire_step, Reach, begin, next,
}
use operating_systems_cs.Sync.Mutex.Laws.{mutual_exclusion, mutex_no_lost_wakeup}

-- Process 0 holds the lock, process 1 sleeps.
abbrev contended : System
contended = acquire 1 (acquire 0 start)

contended-Reach : Reach contended
unfolding acquire start
contended-Reach =
    next (next (begin refl) (acquire_step 0 (inl refl) refl)) (acquire_step 1 (inl refl) refl)

zero_holds : contended.phase 0 ≡ holding
unfolding acquire start
zero_holds = refl

one_asleep : contended.phase 1 ≡ asleep
unfolding acquire start
one_asleep = refl

mutual_exclusion_example : ◌≡◌ {A = ℕ} 0 0
mutual_exclusion_example = mutual_exclusion contended-Reach 0 0 zero_holds zero_holds

mutex_no_lost_wakeup_example :
    (j : ℕ) × (contended.phase j ≡ holding) × ((release j contended).phase 1 ≡ woken)
mutex_no_lost_wakeup_example = mutex_no_lost_wakeup contended-Reach 1 one_asleep
