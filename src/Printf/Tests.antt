-- ===== src/Printf/Tests.antt =====
-- The number -120, and a format.
use operating_systems_cs.Prelude.{
  ℕ, ◌-◌, ◌^◌, ◌<◌, ◌≡◌, refl, ◌⊎◌, true, false, arith, List, [], ◌∷◌, length, none,
}
use operating_systems_cs.Printf.{negative, printint, atoi, printf}
use operating_systems_cs.Printf.Numbers.{atoi-printint}

abbrev minus_120 : ℕ
minus_120 = 2 ^ 32 - 120

prints : printint minus_120 10 true ≡ 45 ∷ 49 ∷ 50 ∷ 48 ∷ []
unfolding printint
prints = refl

formats :
    printf (λ a. none) (λ i. 10) false 0 (97 ∷ 37 ∷ 120 ∷ 37 ∷ 100 ∷ []) ≡ 97 ∷ 65 ∷ 49 ∷ 48 ∷ []
unfolding printf
formats = refl

atoi-printint_example :
    (length (printint minus_120 10 true) < 16)
    × ((negative minus_120 true ≡ false) × (atoi (printint minus_120 10 true) ≡ minus_120)
        ⊎ (negative minus_120 true ≡ true)
          × ((rest : List ℕ) × (printint minus_120 10 true ≡ 45 ∷ rest)
              × (atoi rest ≡ 2 ^ 32 - minus_120)
              × (atoi (printint minus_120 10 true) ≡ 0)))
atoi-printint_example = atoi-printint minus_120 true (omega arith)
