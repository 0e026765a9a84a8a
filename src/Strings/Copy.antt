-- ===== src/Strings/Copy.antt =====
-- `safestrcpy` ends its copy with a 0 inside the array, and writes nothing outside it.
use operating_systems_cs.Prelude.{
  ℕ, zero, suc, ◌+◌, ◌≤◌, ◌<◌, ◌≡◌, ◌∙◌, ◌⊎◌, inl, inr, arith, ◌==◌, Bool-cases, update, update_ne,
}
use operating_systems_cs.Strings.{Memory, safe_loop, safestrcpy}

-- What a copy of at most `n` bytes to `s` has done.
record Ended (n s : ℕ) (m m' : Memory) : Type 0 where
  outside : (a : ℕ) → (a < s) ⊎ (s + n ≤ a) → m' a ≡ m a
  zero_at : (i : ℕ) × (i < n) × (m' (s + i) ≡ 0)

safe_loop-Ended : (n s t : ℕ) (m : Memory) → Ended (suc n) s m (safe_loop n s t m)
unfolding safe_loop
safe_loop-Ended zero s t m = record {
  outside = λ a out. ground arith;
  zero_at = (0, omega arith, ground arith);
}
safe_loop-Ended (suc n) s t m = elim (Bool-cases (m t == 0)) [
  | inl end ↦
      rw end (record { outside = λ a out. ground arith; zero_at = (0, omega arith, ground arith) })
  | inr more ↦
      let ih = safe_loop-Ended n (s + 1) (t + 1) (update m s (m t)) in
      let (i, lt, e) = ih.zero_at in
      let at : s + 1 + i ≡ s + (i + 1) = omega arith in
      rw more (record {
        outside = λ a out. ih.outside a (omega arith) ∙ update_ne m s a (m t) (omega arith);
        zero_at = (i + 1, omega arith, rw (← at) e);
      })
]

-- `safestrcpy` with room for at least one byte leaves a 0 among the `n` bytes at `s`, whatever the source
-- holds, and changes no byte outside them.
pub safestrcpy_lem :
    (n s t : ℕ) (m : Memory)
    → 0 < n
    → ((i : ℕ) × (i < n) × (safestrcpy n s t m (s + i) ≡ 0))
      × ((a : ℕ) → (a < s) ⊎ (s + n ≤ a) → safestrcpy n s t m a ≡ m a)
unfolding safestrcpy
safestrcpy_lem zero s t m h = absurd (omega arith)
safestrcpy_lem (suc n) s t m h = let e = safe_loop-Ended n s t m in (e.zero_at, e.outside)
