-- ===== src/Sync/Condition.antt =====
-- `cond_init`, `cond_wait` and `cond_signal` of project4/sysfile.c, with the mutex lock of the waiters.
-- `cond_wait` holds no lock throughout, so it is cut into its steps: the node is pushed, the mutex lock
-- is released, the process sleeps on its node's lock, and when it is woken it acquires the mutex lock
-- again. The list of nodes is that of project4/list.c, an implementation from another project, and is
-- taken with its documented operations; a node is known by the process on whose stack it lies.
pub mod Wakeup
pub mod Tests
use operating_systems_cs.Prelude.{
  ℕ, ◌≡◌, ◌≢◌, ◌⊎◌, Bool, true, false, List, [], ◌∷◌, ◌++◌, ◌==◌, if◌then◌else◌, Option, none, some,
  update,
}
use operating_systems_cs.Sync.Mutex.{lock_acquire, lock_release}

-- `list_init`, `list_push_back`, `list_empty` and `list_pop_front`, by the elements front to back.
pub record ElemList : Type 1 where
  pub Carrier : Type 0
  pub elems : Carrier → List ℕ
  pub list_init : Carrier
  pub list_push_back : Carrier → ℕ → Carrier
  pub list_empty : Carrier → Bool
  pub list_pop_front : Carrier → Option (ℕ × Carrier)
  pub init_elems : elems list_init ≡ []
  pub push_elems : (q : Carrier) (x : ℕ) → elems (list_push_back q x) ≡ elems q ++ (x ∷ [])
  pub empty_elems : (q : Carrier) → elems q ≡ [] → list_empty q ≡ true
  pub pop_elems :
      (q : Carrier) (x : ℕ) (xs : List ℕ)
      → elems q ≡ x ∷ xs
      → (list_empty q ≡ false) × ((r : Carrier) × (list_pop_front q ≡ some (x, r)) × (elems r ≡ xs))

-- Where a process is: outside, in `lock_acquire` asleep or woken, with the mutex lock, and in
-- `cond_wait`: with its node pushed, with the mutex lock released but not yet asleep, asleep on the
-- node, and woken from that sleep.
pub data Phase : Type 0 where
  outside lock_asleep lock_woken holding queued unlocked waiting notified : Phase

-- `wakeup(&mlk->value)`, at each process.
pub wake_lock : Phase → Phase
wake_lock lock_asleep = lock_woken
wake_lock p = p

-- `wakeup(&c_node->lock)`, at the process of the node.
pub wake_node : Phase → Phase
wake_node waiting = notified
wake_node p = p

module _ (impl : ElemList) where
  open impl use {Carrier, list_init, list_push_back, list_empty, list_pop_front}

  pub record System : Type 0 where
    pub clist : Carrier
    pub value : ℕ
    pub phase : ℕ → Phase

  pub start : System
  start = record { clist = list_init; value = 0; phase = λ _. outside }

  -- A round of `lock_acquire` in process `i`.
  pub acquire : ℕ → System → System
  acquire i s = elim (lock_acquire s.value) [
    | none ↦ record s { phase = update s.phase i lock_asleep }
    | some v ↦ record s { value = v; phase = update s.phase i holding }
  ]

  pub release_to : Phase → ℕ → System → System
  unfolding wake_lock
  release_to p i s = record s {
    value = lock_release s.value;
    phase = update (λ j. wake_lock (s.phase j)) i p;
  }

  -- The steps of `cond_wait` before the mutex lock is acquired again.
  pub push_node : ℕ → System → System
  push_node i s = record s { clist = list_push_back s.clist i; phase = update s.phase i queued }

  pub unlock : ℕ → System → System
  unfolding release_to
  unlock i s = release_to unlocked i s

  pub node_sleep : ℕ → System → System
  node_sleep i s = record s { phase = update s.phase i waiting }

  pub cond_signal : System → System
  unfolding wake_node
  cond_signal s = if list_empty s.clist then s else elim (list_pop_front s.clist) [
    | none ↦ s
    | some (i, rest) ↦ record s { clist = rest; phase = update s.phase i (wake_node (s.phase i)) }
  ]

  -- What processes do that are not killed, and that wait and release only with the mutex lock. Any
  -- process may signal at any time.
  pub data Step (s : System) (t : System) : Type 0 where
    acquire_step :
        (i : ℕ)
        → (s.phase i ≡ outside) ⊎ (s.phase i ≡ lock_woken) ⊎ (s.phase i ≡ notified)
        → t ≡ acquire i s
        → Step s t
    release_step : (i : ℕ) → s.phase i ≡ holding → t ≡ release_to outside i s → Step s t
    push_step : (i : ℕ) → s.phase i ≡ holding → t ≡ push_node i s → Step s t
    unlock_step : (i : ℕ) → s.phase i ≡ queued → t ≡ unlock i s → Step s t
    sleep_step : (i : ℕ) → s.phase i ≡ unlocked → t ≡ node_sleep i s → Step s t
    signal_step : t ≡ cond_signal s → Step s t

  pub data Reach (s : System) : System → Type 0 where
    here : {t : System} → t ≡ s → Reach s t
    next : {t u : System} → Reach s t → Step t u → Reach s u
