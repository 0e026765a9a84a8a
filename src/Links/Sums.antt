-- ===== src/Links/Sums.antt =====
-- Sums over the inodes.
use operating_systems_cs.Prelude.{
  ℕ, zero, suc, ◌+◌, ◌<◌, ◌≡◌, refl, ap, ◌∙◌, inl, inr, Bool-cases, arith, ◌==◌, eq_of_eqb, update,
  update_self, update_ne,
}

abbrev pub sum_to : ℕ → (ℕ → ℕ) → ℕ
sum_to zero f = 0
sum_to (suc n) f = sum_to n f + f n

pub sum_to-ext : (n : ℕ) (f g : ℕ → ℕ) → ((x : ℕ) → x < n → f x ≡ g x) → sum_to n f ≡ sum_to n g
sum_to-ext zero f g h = refl
sum_to-ext (suc n) f g h =
    let last = h n (omega arith) in omega (arith, sum_to-ext n f g (λ x lt. h x (omega arith)))

pub sum_to-zero : (n : ℕ) (f : ℕ → ℕ) → sum_to n f ≡ 0 → (x : ℕ) → x < n → f x ≡ 0
sum_to-zero zero f h x lt = absurd (omega arith)
sum_to-zero (suc n) f h x lt = elim (Bool-cases (x == n)) [
  | inl last ↦ ap f (eq_of_eqb x n last) ∙ omega arith
  | inr before ↦ sum_to-zero n f (omega arith) x (ground arith)
]

-- Changing one term changes the sum by as much.
pub sum_to-update {ℓ} :
    {A : Type ℓ} (n d : ℕ) (g : A → ℕ) (s : ℕ → A) (a : A)
    → d < n
    → sum_to n (λ x. g (update s d a x)) + g (s d) ≡ sum_to n (λ x. g (s x)) + g a
sum_to-update zero d g s a lt = absurd (omega arith)
sum_to-update (suc n) d g s a lt = elim (Bool-cases (d == n)) [
  | inl last ↦
      let e = eq_of_eqb d n last in
      let same =
        sum_to-ext n (λ x. g (update s d a x)) (λ x. g (s x))
          (λ x l. ap g (update_ne s d x a (λ q. omega arith))) in
      let here : g (update s d a n) ≡ g a = rw (← e) (ap g (update_self s d a)) in
      let old : g (s d) ≡ g (s n) = ap (λ x. g (s x)) e in omega arith
  | inr before ↦
      let here : g (update s d a n) ≡ g (s n) = ap g (update_ne s d n a (λ q. ground arith)) in
      let rest = sum_to-update n d g s a (ground arith) in omega arith
]
