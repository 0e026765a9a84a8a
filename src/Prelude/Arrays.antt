-- ===== src/Prelude/Arrays.antt =====
-- C arrays and memory as functions of the index.
use Prim.Native.Nat.{ℕ, zero, suc, ◌+◌, ◌≤◌, ◌<◌}
use mathlib.Core.Path.{◌≡◌}
use mathlib.Core.Logic.{◌≢◌, inl, inr}
use mathlib.Core.Bool.{Bool, true, false}
use mathlib.Core.Option.{Option, none, some}
use native.Mathlib.Omega.{arith}
use operating_systems_cs.Prelude.Tests.{◌==◌, if◌then◌else◌, Bool-cases, eq_of_eqb}

abbrev pub update {ℓ} : {A : Type ℓ} → (ℕ → A) → ℕ → A → ℕ → A
update f i a j = if i == j then a else f j

pub update_self {ℓ} : {A : Type ℓ} (f : ℕ → A) (i : ℕ) (a : A) → update f i a i ≡ a
update_self f i a = ground arith

pub update_ne {ℓ} : {A : Type ℓ} (f : ℕ → A) (i j : ℕ) (a : A) → i ≢ j → update f i a j ≡ f j
update_ne f i j a h = ground arith

-- A loop over the indices from `i` on that stops at the first one that passes the test.
unfoldable pub find : ℕ → ℕ → (ℕ → Bool) → Option ℕ
find zero i test = none
find (suc n) i test = let rest = find n (i + 1) test in if test i then some i else rest

pub find-some :
    (n i : ℕ) (test : ℕ → Bool) {j : ℕ}
    → find n i test ≡ some j
    → (test j ≡ true) × (i ≤ j) × (j < i + n)
unfolding find
find-some zero i test h = cc
find-some (suc n) i test {j} h = elim (Bool-cases (test i)) [
  | inl hit ↦ ground arith
  | inr miss ↦ ground (arith, find-some n (i + 1) test {j = j})
]

pub find_first :
    (n i : ℕ) (test : ℕ → Bool) {j : ℕ}
    → find n i test ≡ some j
    → (k : ℕ) → i ≤ k
    → k < j
    → test k ≡ false
unfolding find
find_first zero i test h k lo hi = cc
find_first (suc n) i test {j} h k lo hi = elim (Bool-cases (test i)) [
  | inl hit ↦ ground arith
  | inr miss ↦ elim (Bool-cases (i == k)) [
    | inl same ↦ rw (← eq_of_eqb i k same) miss
    | inr later ↦ find_first n (i + 1) test (ground arith) k (ground arith) hi
  ]
]

pub find-none :
    (n i : ℕ) (test : ℕ → Bool)
    → find n i test ≡ none
    → (k : ℕ) → i ≤ k
    → k < i + n
    → test k ≡ false
unfolding find
find-none zero i test h k lo hi = absurd (omega arith)
find-none (suc n) i test h k lo hi = elim (Bool-cases (test i)) [
  | inl hit ↦ ground arith
  | inr miss ↦ elim (Bool-cases (i == k)) [
    | inl same ↦ rw (← eq_of_eqb i k same) miss
    | inr later ↦ find-none n (i + 1) test (ground arith) k (ground arith) (omega arith)
  ]
]

-- A test that holds first at `j` stops the loop there.
pub find_at :
    (n i j : ℕ) (test : ℕ → Bool)
    → i ≤ j
    → j < i + n
    → test j ≡ true
    → ((k : ℕ) → i ≤ k → k < j → test k ≡ false)
    → find n i test ≡ some j
unfolding find
find_at zero i j test lo hi hit before = absurd (omega arith)
find_at (suc n) i j test lo hi hit before = elim (Bool-cases (i == j)) [
  | inl same ↦ ground arith
  | inr later ↦
      let miss : test i ≡ false = before i (omega arith) (ground arith) in
      rw (miss) (
        find_at n (i + 1) j test (ground arith) (omega arith) hit
          (λ k a b. before k (omega arith) b))
]
