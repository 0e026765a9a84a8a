-- ===== src/Log/Tests.antt =====
-- Runs of the log, and the theorems at them.
use operating_systems_cs.Prelude.{
  ℕ, ◌+◌, suc, length, ◌≡◌, refl, ◌⊎◌, false, [], ◌∷◌, ◌++◌, arith, ◌==◌, ◌||◌, take, has, update,
}
use operating_systems_cs.Log.{
  block, header, Disk, header_of, apply_all, commit_writes, recover_from_log, Log, panic, state,
  log_write, logsize,
}
use operating_systems_cs.Log.Crash.{OutLog, updated, commit_atomic}
use operating_systems_cs.Log.Ops.{total, Reserved, log_write-Reserved}

-- A log region from 2 to 33 with an empty header, and zeroed blocks.
abbrev fresh : Disk
fresh = update (λ _. block 0) 2 (header [])

abbrev cached : ℕ → ℕ
cached b = b + 100

-- Block 50 is home, block 60 not yet, when the machine stops: recovery installs both.
recovers :
    (recover_from_log 2 (apply_all (take 4 (commit_writes cached fresh 2 (50 ∷ 60 ∷ []))) fresh) 60)
    ≡ block 160
unfolding recover_from_log commit_writes apply_all
recovers = refl

discards :
    (recover_from_log 2 (apply_all (take 2 (commit_writes cached fresh 2 (50 ∷ 60 ∷ []))) fresh) 60)
    ≡ block 0
unfolding recover_from_log commit_writes apply_all
discards = refl

fresh_clean : header_of (fresh 2) ≡ []
unfolding header_of
fresh_clean = refl

commit_atomic_example :
    let r =
      recover_from_log 2 (apply_all (take 4 (commit_writes cached fresh 2 (50 ∷ 60 ∷ []))) fresh) in
    ((a : ℕ) → OutLog 2 31 a → r a ≡ fresh a)
    ⊎ ((a : ℕ) → OutLog 2 31 a → r a ≡ updated cached (50 ∷ 60 ∷ []) fresh a)
commit_atomic_example =
    commit_atomic cached 2 31 fresh (50 ∷ 60 ∷ []) 4 fresh_clean (omega arith) (λ a i. ground arith)

abbrev idle_log : Log
idle_log = record { start = 2; size = 30; outstanding = 0; committing = false; lh = [] }

abbrev busy_log : Log
busy_log = record idle_log { outstanding = 1; lh = 7 ∷ [] }

idle-Reserved : Reserved idle_log []
idle-Reserved = record {
  big = omega arith;
  counted = refl;
  bounded = tt;
  few = omega arith;
  fits = omega arith;
  quiet = λ e. refl;
}

busy-Reserved : Reserved busy_log (9 ∷ [])
busy-Reserved = record {
  big = omega arith;
  counted = refl;
  bounded = (omega arith, tt);
  few = omega arith;
  fits = omega arith;
  quiet = λ e. cc;
}

log_write-Reserved_example :
    ((busy_log.size ≡ logsize)
      × (suc (length busy_log.lh) ≡ logsize)
      × (total ([] ++ (9 ∷ [])) ≡ 1)
      × (log_write 5 busy_log ≡ panic))
    ⊎ ((l' : Log) × (log_write 5 busy_log ≡ state l')
        × Reserved l' ([] ++ (8 ∷ []))
        × ((a : ℕ) → has a l'.lh ≡ ((a == 5) || has a busy_log.lh)))
log_write-Reserved_example = log_write-Reserved busy_log [] [] 8 5 busy-Reserved
