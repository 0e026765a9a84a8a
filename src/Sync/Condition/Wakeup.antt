-- ===== src/Sync/Condition/Wakeup.antt =====
-- What a signal does for a process that sleeps, and for one that is about to.
use operating_systems_cs.Prelude.{
  ℕ, ◌≡◌, ◌≢◌, refl, sym, ◌∙◌, ap, ◌⊎◌, false, List, [], ◌∷◌, arith, has, has-append, update,
}
use operating_systems_cs.Sync.Condition.{
  ElemList, Phase, outside, lock_woken, holding, queued, unlocked, waiting, notified, wake_lock,
  wake_node, System, acquire, release_to, push_node, unlock, node_sleep, cond_signal, Step,
  acquire_step, release_step, push_step, unlock_step, sleep_step, signal_step, Reach, here, next,
}

module _ (impl : ElemList) where
  open impl use {elems, push_elems, pop_elems, empty_elems}

  signal_front :
      (s : System impl) (i : ℕ) (xs : List ℕ)
      → elems s.clist ≡ i ∷ xs
      → ((cond_signal impl s).phase ≡ update s.phase i (wake_node (s.phase i)))
        × (elems (cond_signal impl s).clist ≡ xs)
  unfolding cond_signal
  signal_front s i xs e =
      let (full, popping) = pop_elems s.clist i xs e in
      let (r, popped, rest) = popping in rw (full, popped) (refl, rest)

  signal_nil : (s : System impl) → elems s.clist ≡ [] → cond_signal impl s ≡ s
  unfolding cond_signal
  signal_nil s e = rw (empty_elems s.clist e)

  -- A signal takes the front node off the list, and if its process sleeps on the node it is woken;
  -- no other process is.
  pub signal_wakes :
      (s : System impl) (i : ℕ) (xs : List ℕ)
      → elems s.clist ≡ i ∷ xs
      → s.phase i ≡ waiting
      → ((cond_signal impl s).phase ≡ update s.phase i notified)
        × (elems (cond_signal impl s).clist ≡ xs)
  unfolding wake_node
  signal_wakes s i xs e w =
      let (moved, rest) = signal_front s i xs e in
      (moved ∙ ap (λ p. update s.phase i (wake_node p)) w, rest)

  -- Process `i` sleeps in `cond_wait` and no signal can find its node.
  pub record Stuck (i : ℕ) (s : System impl) : Type 0 where
    pub asleep : s.phase i ≡ waiting
    pub absent : has i (elems s.clist) ≡ false

  acquire-Stuck :
      (i j : ℕ) (s : System impl)
      → (s.phase j ≡ outside) ⊎ (s.phase j ≡ lock_woken) ⊎ (s.phase j ≡ notified)
      → Stuck i s
      → Stuck i (acquire impl j s)
  unfolding acquire
  acquire-Stuck i j s h k = ground (arith, k.asleep, k.absent)

  release_to-Stuck :
      (i j : ℕ) (p : Phase) (s : System impl)
      → s.phase j ≢ waiting
      → Stuck i s
      → Stuck i (release_to impl p j s)
  unfolding release_to
  release_to-Stuck i j p s h k = record {
    asleep = ground (arith, k.asleep, waiting_kept);
    absent = k.absent;
  }
    where
      waiting_kept : wake_lock waiting ≡ waiting
      waiting_kept = refl

  push_node-Stuck :
      (i j : ℕ) (s : System impl) → s.phase j ≡ holding → Stuck i s → Stuck i (push_node impl j s)
  unfolding push_node
  push_node-Stuck i j s h k = record {
    asleep = ground (arith, k.asleep);
    absent =
        ap (has i) (push_elems s.clist j)
        ∙ has-append i (elems s.clist) (j ∷ [])
        ∙ ground (arith, k.asleep, k.absent);
  }

  unlock-Stuck :
      (i j : ℕ) (s : System impl) → s.phase j ≡ queued → Stuck i s → Stuck i (unlock impl j s)
  unfolding unlock
  unlock-Stuck i j s h k = release_to-Stuck i j unlocked s (λ w. cc) k

  node_sleep-Stuck :
      (i j : ℕ) (s : System impl) → s.phase j ≡ unlocked → Stuck i s → Stuck i (node_sleep impl j s)
  unfolding node_sleep
  node_sleep-Stuck i j s h k = ground (arith, k.asleep, k.absent)

  signal-Stuck : (i : ℕ) (s : System impl) → Stuck i s → Stuck i (cond_signal impl s)
  signal-Stuck i s k = cases (elems s.clist) refl
    where
      cases : (xs : List ℕ) → elems s.clist ≡ xs → Stuck i (cond_signal impl s)
      cases [] e = rw (signal_nil s e) k
      cases (x ∷ xs) e =
          let (moved, rest) = signal_front s x xs e in
          let gone : has i (x ∷ xs) ≡ false = ap (has i) (sym e) ∙ k.absent in
          record {
            asleep = ap (λ f. f i) moved ∙ ground (arith, k.asleep);
            absent = ap (has i) rest ∙ ground arith;
          }

  Step-Stuck : {s t : System impl} (i : ℕ) → Step impl s t → Stuck i s → Stuck i t
  Step-Stuck {s} i (acquire_step j h e) k = rw e (acquire-Stuck i j s h k)
  Step-Stuck {s} i (release_step j h e) k = rw e (release_to-Stuck i j outside s (λ w. cc) k)
  Step-Stuck {s} i (push_step j h e) k = rw e (push_node-Stuck i j s h k)
  Step-Stuck {s} i (unlock_step j h e) k = rw e (unlock-Stuck i j s h k)
  Step-Stuck {s} i (sleep_step j h e) k = rw e (node_sleep-Stuck i j s h k)
  Step-Stuck {s} i (signal_step e) k = rw e (signal-Stuck i s k)

  Reach-Stuck : {s t : System impl} (i : ℕ) → Stuck i s → Reach impl s t → Stuck i t
  Reach-Stuck i k (here e) = rw e k
  Reach-Stuck i k (next r st) = Step-Stuck i st (Reach-Stuck i k r)

  -- A wakeup can be lost. Let a process have released the mutex lock in `cond_wait` and not yet be
  -- asleep, with its node once in the list and in front. If another process signals now and then the
  -- process goes to sleep, it sleeps for ever: it is asleep in every state that the processes reach
  -- from there, whatever signals they send, unless one is killed.
  pub wakeup_lost :
      (s t : System impl) (i : ℕ) (xs : List ℕ)
      → s.phase i ≡ unlocked
      → elems s.clist ≡ i ∷ xs
      → has i xs ≡ false
      → Reach impl (node_sleep impl i (cond_signal impl s)) t
      → t.phase i ≡ waiting
  unfolding node_sleep
  wakeup_lost s t i xs u e once r = (Reach-Stuck i stuck r).asleep
    where
      stuck : Stuck i (node_sleep impl i (cond_signal impl s))
      stuck = record { asleep = ground arith; absent = ap (has i) (signal_front s i xs e).1 ∙ once }
