-- ===== src/Printf/Text.antt =====
-- `printf` of a text.
use operating_systems_cs.Prelude.{
  ℕ, ◌+◌, ◌≡◌, refl, ap, inl, inr, false, Bool-cases, arith, List, [], ◌∷◌, ◌++◌, ◌==◌,
  if◌then◌else◌, eq_of_eqb, Option,
}
use operating_systems_cs.Printf.{printf}

-- The text as a format, with each `%` doubled.
pub escape : List ℕ → List ℕ
escape [] = []
escape (c ∷ cs) = let rest = escape cs in if c == 37 then 37 ∷ 37 ∷ rest else c ∷ rest

module _ (string : ℕ → Option (List ℕ)) (arg : ℕ → ℕ) where
  plus_zero : (n : ℕ) → n + 0 ≡ n
  plus_zero n = omega arith

  -- `printf` of a text whose `%` are doubled prints the text, whatever is on the stack, and then goes on with
  -- what follows and the arguments that were left.
  pub printf-escape :
      (text more : List ℕ) (at : ℕ)
      → printf string arg false at (escape text ++ more) ≡ text ++ printf string arg false at more
  unfolding printf escape
  printf-escape [] more at = refl
  printf-escape (c ∷ cs) more at = elim (Bool-cases (c == 37)) [
    | inl percent ↦
        let e : c ≡ 37 = eq_of_eqb c 37 percent in
        rw (percent, e, plus_zero at) (ap (λ r. 37 ∷ r) (printf-escape cs more at))
    | inr other ↦ rw (other, other) (ap (λ r. c ∷ r) (printf-escape cs more at))
  ]
