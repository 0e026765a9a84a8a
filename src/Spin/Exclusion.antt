-- ===== src/Spin/Exclusion.antt =====
-- Mutual exclusion of a spin lock; its checks never panic.
use operating_systems_cs.Prelude.{
  ℕ, suc, ◌-◌, ◌<◌, ◌≡◌, ◌≢◌, ◌⊎◌, inl, inr, Bool-cases, refl, Bool, true, false, ◌&&◌, arith, ◌==◌,
  update, some,
}
use operating_systems_cs.Spin.{
  Cpu, pushcli, popcli, initlock, holding, Phase, idle, spinning, taken, held, clearing, freed,
  panicked, System, enter, spin, own, disown, unlock, leave, Step, enter_step, spin_step, own_step,
  disown_step, unlock_step, leave_step, Matched, Reach, begin, next,
}

-- Past the loop of `acquire` and not past the exchange of `release`.
abbrev pub inside : Phase → Bool
inside idle = false
inside spinning = false
inside taken = true
inside held = true
inside clearing = true
inside freed = false
inside panicked = false

abbrev pub is_idle : Phase → Bool
is_idle idle = true
is_idle spinning = false
is_idle taken = false
is_idle held = false
is_idle clearing = false
is_idle freed = false
is_idle panicked = false

pub record Safe (s : System) : Type 0 where
  pub shut : (i : ℕ) → inside (s.phase i) ≡ true → s.lock.locked ≡ true
  pub unique : (i j : ℕ) → inside (s.phase i) ≡ true → inside (s.phase j) ≡ true → i ≡ j
  pub owner : (i : ℕ) → s.lock.cpu ≡ suc i → s.phase i ≡ held
  pub owned : (i : ℕ) → s.phase i ≡ held → s.lock.cpu ≡ suc i
  pub calm : (i : ℕ) → s.phase i ≢ panicked
  pub busy :
      (i : ℕ) → is_idle (s.phase i) ≡ false → ((s.cpus i).iflag ≡ false) × (0 < (s.cpus i).ncli)
  pub matched : (i : ℕ) → is_idle (s.phase i) ≡ true → Matched (s.cpus i)

own-Safe : (i : ℕ) (s : System) → s.phase i ≡ taken → Safe s → Safe (own i s)
unfolding own
own-Safe i s h o = record {
  shut = λ j e. ground (arith, o.shut j, o.shut i);
  unique = λ j k e f. ground (arith, o.unique j k, o.unique i k, o.unique j i);
  owner = λ j e. ground (arith, o.owner j);
  owned = λ j e. ground (arith, o.owned j, o.unique i j);
  calm = λ j e. ground (arith, o.calm j);
  busy = λ j e. ground (arith, o.busy j, o.busy i);
  matched = λ j e. ground (arith, o.matched j);
}

enter-Safe : (i : ℕ) (s : System) → s.phase i ≡ idle → Safe s → Safe (enter i s)
unfolding enter pushcli holding
enter-Safe i s h o = record {
  shut = λ j e. ground (arith, o.shut j);
  unique = λ j k e f. ground (arith, o.unique j k);
  owner = λ j e. ground (arith, o.owner j);
  owned = λ j e. ground (arith, o.owned j);
  calm = λ j e. ground (arith, o.calm j, o.owner i);
  busy = λ j e. ground (arith, o.busy j);
  matched = λ j e. ground (arith, o.matched j);
}

spin-Safe : (i : ℕ) (s : System) → s.phase i ≡ spinning → Safe s → Safe (spin i s)
unfolding spin
spin-Safe i s h o = record {
  shut = λ j e. refl;
  unique = λ j k e f. ground (arith, o.unique j k, o.shut j, o.shut k);
  owner = λ j e. ground (arith, o.owner j);
  owned = λ j e. ground (arith, o.owned j);
  calm = λ j e. ground (arith, o.calm j);
  busy = λ j e. ground (arith, o.busy j, o.busy i);
  matched = λ j e. ground (arith, o.matched j);
}

disown-Safe : (i : ℕ) (s : System) → s.phase i ≡ held → Safe s → Safe (disown i s)
unfolding disown holding
disown-Safe i s h o = record {
  shut = λ j e. ground (arith, o.shut j, o.shut i, o.owned i);
  unique = λ j k e f. ground (arith, o.unique j k, o.unique i k, o.unique j i, o.shut i, o.owned i);
  owner = λ j e. ground (arith, o.owner j, o.owned i, o.shut i);
  owned = λ j e. ground (arith, o.owned j, o.unique i j, o.shut i, o.owned i);
  calm = λ j e. ground (arith, o.calm j, o.shut i, o.owned i);
  busy = λ j e. ground (arith, o.busy j, o.busy i, o.shut i, o.owned i);
  matched = λ j e. ground (arith, o.matched j, o.shut i, o.owned i);
}

unlock-Safe : (i : ℕ) (s : System) → s.phase i ≡ clearing → Safe s → Safe (unlock i s)
unfolding unlock
unlock-Safe i s h o = record {
  shut = λ j e. ground (arith, o.unique i j);
  unique = λ j k e f. ground (arith, o.unique j k, o.unique i k, o.unique j i);
  owner = λ j e. ground (arith, o.owner j);
  owned = λ j e. ground (arith, o.owned j);
  calm = λ j e. ground (arith, o.calm j);
  busy = λ j e. ground (arith, o.busy j, o.busy i);
  matched = λ j e. ground (arith, o.matched j);
}

popcli_lem : (c : Cpu) → c.iflag ≡ false → 0 < c.ncli → (d : Cpu) × (popcli c ≡ some d) × Matched d
unfolding popcli
popcli_lem c off deep = (
  record c { ncli = c.ncli - 1; iflag = (c.ncli - 1 == 0) && c.intena },
  ground arith,
  ground arith,
)

left-Safe :
    (i : ℕ) (s : System) (d : Cpu)
    → s.phase i ≡ freed
    → Matched d
    → Safe s
    → Safe (record s { cpus = update s.cpus i d; phase = update s.phase i idle })
left-Safe i s d h m o = record {
  shut = λ j e. ground (arith, o.shut j);
  unique = λ j k e f. ground (arith, o.unique j k);
  owner = λ j e. ground (arith, o.owner j);
  owned = λ j e. ground (arith, o.owned j);
  calm = λ j e. ground (arith, o.calm j);
  busy = λ j e. ground (arith, o.busy j);
  matched = λ j e. ground (arith, o.matched j, m);
}

leave-Safe : (i : ℕ) (s : System) → s.phase i ≡ freed → Safe s → Safe (leave i s)
unfolding leave
leave-Safe i s h o =
    let (off, deep) = o.busy i (rw h refl) in
    let (d, e, m) = popcli_lem (s.cpus i) off deep in rw (e, leave) (left-Safe i s d h m o)

Step-Safe : {s t : System} → Step s t → Safe s → Safe t
Step-Safe {s} (enter_step i h e) o = rw e (enter-Safe i s h o)
Step-Safe {s} (spin_step i h e) o = rw e (spin-Safe i s h o)
Step-Safe {s} (own_step i h e) o = rw e (own-Safe i s h o)
Step-Safe {s} (disown_step i h e) o = rw e (disown-Safe i s h o)
Step-Safe {s} (unlock_step i h e) o = rw e (unlock-Safe i s h o)
Step-Safe {s} (leave_step i h e) o = rw e (leave-Safe i s h o)

Reach-Safe : {s : System} → Reach s → Safe s
unfolding initlock
Reach-Safe {s} (begin fresh rest m) = record {
  shut = λ j e. ground (arith, rest j);
  unique = λ j k e f. ground (arith, rest j);
  owner = λ j e. ground arith;
  owned = λ j e. ground (arith, rest j);
  calm = λ j e. ground (arith, rest j);
  busy = λ j e. ground (arith, rest j);
  matched = λ j e. m j;
}
Reach-Safe (next r st) = Step-Safe st (Reach-Safe r)

-- From a free lock, in every interleaving of the processors' steps, two processors are never both between
-- the end of the loop of `acquire` and the exchange of `release`.
pub spin_exclusion :
    {s : System}
    → Reach s
    → (i j : ℕ) → inside (s.phase i) ≡ true
    → inside (s.phase j) ≡ true
    → i ≡ j
spin_exclusion r i j e f = (Reach-Safe r).unique i j e f

-- From a free lock, with processors that are each in no `pushcli` or have their interrupts off, in every
-- interleaving of their steps: no check of `acquire`, `release` or `popcli` panics, and a processor that is
-- anywhere inside the lock's code has its interrupts off.
pub spin_calm :
    {s : System}
    → Reach s
    → (i : ℕ) → (s.phase i ≢ panicked) × ((is_idle (s.phase i) ≡ true) ⊎ ((s.cpus i).iflag ≡ false))
spin_calm {s} r i = (
  (Reach-Safe r).calm i,
  elim (Bool-cases (is_idle (s.phase i))) [
    | inl away ↦ inl away
    | inr in_code ↦ inr ((Reach-Safe r).busy i in_code).0
  ],
)
