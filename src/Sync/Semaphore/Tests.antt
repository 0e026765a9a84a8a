-- ===== src/Sync/Semaphore/Tests.antt =====
-- A run of two processes on a semaphore, and the theorems at it.
use operating_systems_cs.Prelude.{◌+◌, ◌≤◌, ◌≡◌, refl, arith}
use operating_systems_cs.Sync.Semaphore.{System, asleep, start, down, down_step, Reach, begin, next}
use operating_systems_cs.Sync.Semaphore.Laws.{sema_counts}

-- Process 0 gets through, process 1 sleeps.
abbrev contended : System
contended = down 1 (down 0 (start 1))

contended-Reach : Reach 1 contended
unfolding down start
contended-Reach = next (next (begin refl) (down_step 0 (λ e. cc) refl)) (down_step 1 (λ e. cc) refl)

one_asleep : contended.phase 1 ≡ asleep
unfolding down start
one_asleep = refl

sema_counts_example :
    (contended.value + contended.downs ≡ 1 + contended.ups) × (contended.downs ≤ 1 + contended.ups)
unfolding down start
sema_counts_example = sema_counts (omega arith) contended-Reach (omega arith)
