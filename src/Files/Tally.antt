-- ===== src/Files/Tally.antt =====
-- How many descriptors name a file.
use operating_systems_cs.Prelude.{
  ℕ, zero, suc, ◌+◌, ◌≤◌, ◌<◌, ◌≡◌, refl, inl, inr, false, arith, ◌==◌, if◌then◌else◌, Bool-cases,
  eq_of_eqb, Option, none, some, update,
}
use operating_systems_cs.Files.{nofile, Ofile}

-- The sum of a weight over the first `n` entries of an array.
module _ {A : Type 0} (weight : A → ℕ) where
  unfoldable pub tally : ℕ → (ℕ → A) → ℕ
  tally zero g = 0
  tally (suc n) g = weight (g n) + tally n g

  tally_past : (n : ℕ) (g : ℕ → A) (i : ℕ) (a : A) → n ≤ i → tally n (update g i a) ≡ tally n g
  unfolding tally
  tally_past zero g i a h = refl
  tally_past (suc n) g i a h =
      let other : (i == n) ≡ false = ground arith in rw (other, tally_past n g i a (omega arith))

  pub tally-update :
      (n : ℕ) (g : ℕ → A) (i : ℕ) (a : A)
      → i < n
      → tally n (update g i a) + weight (g i) ≡ tally n g + weight a
  unfolding tally
  tally-update zero g i a h = absurd (omega arith)
  tally-update (suc n) g i a h = elim (Bool-cases (i == n)) [
    | inl last ↦ rw (last, ← eq_of_eqb i n last, tally_past i g i a (omega arith)) (omega arith)
    | inr below ↦ rw below (omega (arith, tally-update n g i a (ground arith)))
  ]

abbrev pub nproc : ℕ
nproc = 64

abbrev pub holds : ℕ → Option ℕ → ℕ
holds f none = 0
holds f (some g) = if f == g then 1 else 0

-- The descriptors of one process, and of all, that name the file.
abbrev pub in_process : ℕ → Ofile → ℕ
in_process f o = tally (holds f) nofile o

abbrev pub in_all : ℕ → (ℕ → Ofile) → ℕ
in_all f os = tally (in_process f) nproc os

-- One descriptor is set.
pub in_all-set :
    (f : ℕ) (os : ℕ → Ofile) (p fd : ℕ) (x : Option ℕ)
    → p < nproc
    → fd < nofile
    → in_all f (update os p (update (os p) fd x)) + holds f (os p fd) ≡ in_all f os + holds f x
in_all-set f os p fd x hp hfd = omega (
  arith,
  tally-update (in_process f) nproc os p (update (os p) fd x) hp,
  tally-update (holds f) nofile (os p) fd x hfd,
)
