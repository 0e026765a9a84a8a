-- ===== src/Sync/Condition/Tests.antt =====
-- A list of nodes that meets the interface, and a lost wakeup.
use operating_systems_cs.Prelude.{
  ℕ, ◌≡◌, refl, Bool, true, false, List, [], ◌∷◌, ◌++◌, Option, none, some, update,
}
use operating_systems_cs.Sync.Condition.{
  ElemList, outside, unlocked, waiting, System, node_sleep, cond_signal, here,
}
use operating_systems_cs.Sync.Condition.Wakeup.{wakeup_lost}

abbrev is_nil : List ℕ → Bool
is_nil [] = true
is_nil (x ∷ xs) = false

abbrev uncons : List ℕ → Option (ℕ × List ℕ)
uncons [] = none
uncons (x ∷ xs) = some (x, xs)

nil_is_nil : (q : List ℕ) → q ≡ [] → is_nil q ≡ true
nil_is_nil q e = rw e

cons_uncons :
    (q : List ℕ) (x : ℕ) (xs : List ℕ)
    → q ≡ x ∷ xs
    → (is_nil q ≡ false) × ((r : List ℕ) × (uncons q ≡ some (x, r)) × (r ≡ xs))
cons_uncons q x xs e = (rw e, (xs, rw e, refl))

abbrev plain : ElemList
plain = record {
  Carrier = List ℕ;
  elems = λ q. q;
  list_init = [];
  list_push_back = λ q x. q ++ (x ∷ []);
  list_empty = is_nil;
  list_pop_front = uncons;
  init_elems = refl;
  push_elems = λ q x. refl;
  empty_elems = nil_is_nil;
  pop_elems = cons_uncons;
}

-- Process 1 has released the lock and is about to sleep.
abbrev between : System plain
between = record { clist = 1 ∷ []; value = 0; phase = update (λ _. outside) 1 unlocked }

abbrev sleeping : System plain
sleeping = record { clist = 1 ∷ []; value = 0; phase = update (λ _. outside) 1 waiting }

wakeup_lost_example : (node_sleep plain 1 (cond_signal plain between)).phase 1 ≡ waiting
wakeup_lost_example =
    wakeup_lost plain between (node_sleep plain 1 (cond_signal plain between)) 1 [] refl refl refl
      (here refl)
