-- ===== src/Sync.antt =====
-- project4/sysfile.c, from `shared_pages` on: shared memory between processes, and the semaphores,
-- mutex locks and condition variables that live in it.
pub mod Shared
pub mod Semaphore
pub mod Mutex
pub mod Condition
