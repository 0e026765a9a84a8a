-- ===== src/Directory/Names.antt =====
-- A name that is copied into an entry is the same name.
use operating_systems_cs.Prelude.{
  ℕ, zero, suc, ◌+◌, ◌<◌, ◌≡◌, refl, ap, ◌∙◌, inl, inr, true, false, arith, ◌==◌, Bool-cases,
  length,
}
use operating_systems_cs.Content.{bytes_from}
use operating_systems_cs.Directory.{same_name, copy_name, nth}

eqb_refl : (a : ℕ) → (a == a) ≡ true
eqb_refl a = ground arith

-- Only the first `n` bytes count.
pub same_name_ext :
    (n : ℕ) (s t u : ℕ → ℕ) → ((i : ℕ) → i < n → t i ≡ u i) → same_name n s t ≡ same_name n s u
unfolding same_name
same_name_ext zero s t u e = refl
same_name_ext (suc n) s t u e =
    let e0 = e 0 (omega arith) in
    let ih =
      same_name_ext n (λ i. s (suc i)) (λ i. t (suc i)) (λ i. u (suc i))
        (λ i lt. e (suc i) (omega arith)) in
    rw (e0, ih) refl

-- Comparing with a copied name is comparing with the name.
pub same_name-copy : (n : ℕ) (s t : ℕ → ℕ) → same_name n s (copy_name n t) ≡ same_name n s t
unfolding same_name copy_name
same_name-copy zero s t = refl
same_name-copy (suc n) s t = elim (Bool-cases (s 0 == t 0)) [
  | inr other ↦ rw other refl
  | inl same ↦ elim (Bool-cases (s 0 == 0)) [
    | inl z ↦ rw (same, z) refl
    | inr nz ↦
        let nz' : (t 0 == 0) ≡ false = ground arith in
        rw (same, nz, nz') (same_name-copy n (λ i. s (suc i)) (λ i. t (suc i)))
  ]
]

pub same_name_refl : (n : ℕ) (s : ℕ → ℕ) → same_name n s s ≡ true
unfolding same_name
same_name_refl zero s = refl
same_name_refl (suc n) s =
    let e = eqb_refl (s 0) in
    elim (Bool-cases (s 0 == 0)) [
      | inl z ↦ rw (e, z) refl
      | inr nz ↦ rw (e, nz) (same_name_refl n (λ i. s (suc i)))
    ]

pub nth-bytes_from : (g : ℕ → ℕ) (a m i : ℕ) → i < m → nth (bytes_from g a m) i ≡ g (a + i)
nth-bytes_from g a zero i h = absurd (omega arith)
nth-bytes_from g a (suc m) zero h = let e : a ≡ a + 0 = omega arith in ap g e
nth-bytes_from g a (suc m) (suc i) h =
    let e : a + 1 + i ≡ a + suc i = omega arith in
    nth-bytes_from g (a + 1) m i (omega arith) ∙ ap g e

pub length-bytes_from : (g : ℕ → ℕ) (a m : ℕ) → length (bytes_from g a m) ≡ m
length-bytes_from g a zero = refl
length-bytes_from g a (suc m) = ap suc (length-bytes_from g (a + 1) m)
