-- ===== src/Console/Tests.antt =====
-- A console on which a line is typed, and the theorems at it.
use operating_systems_cs.Prelude.{ℕ, ◌≡◌, refl, false, true, Bool, List, [], ◌∷◌, arith}
use operating_systems_cs.Console.{Input, consoleintr, ReadEnd, done, consoleread}
use operating_systems_cs.Console.Lines.{IsValid, Extends, consoleintr-Extends}
use operating_systems_cs.Console.Reads.{Good, consoleread_lem}

abbrev empty : Input
empty = record { bytes = λ _. 0; r = 127; w = 127; e = 127 }

empty-IsValid : IsValid empty
empty-IsValid = record {
  r_lt = omega arith;
  w_lt = omega arith;
  e_lt = omega arith;
  ordered = omega arith;
  fits = omega arith;
}

abbrev line : Input
line = (consoleintr (104 ∷ 120 ∷ 8 ∷ 105 ∷ 13 ∷ []) empty).0

read_back : Bool → ReadEnd → List ℕ
read_back b (done bs s) = bs
read_back b x = []

line_read : read_back true (consoleread false 10 line) ≡ 104 ∷ 105 ∷ 10 ∷ []
unfolding consoleread consoleintr read_back
line_read = refl

line-Extends : Extends empty line
line-Extends = consoleintr-Extends (104 ∷ 120 ∷ 8 ∷ 105 ∷ 13 ∷ []) empty empty-IsValid

consoleread_lem_example : Good false 10 false line (consoleread false 10 line)
consoleread_lem_example = consoleread_lem false 10 line line-Extends.valid
