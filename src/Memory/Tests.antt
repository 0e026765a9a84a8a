-- ===== src/Memory/Tests.antt =====
-- A process of two pages that grows, and the theorems at it.
use operating_systems_cs.Prelude.{
  ℕ, ◌+◌, ◌≤◌, ◌<◌, ◌≡◌, refl, ◌⊎◌, Bool, true, arith, List, [], ◌∷◌, some, none, length, take,
  drop, ltb, if◌then◌else◌,
}
use operating_systems_cs.Memory.{pgroundup, Ptes, returns, allocuvm}
use operating_systems_cs.Memory.Grow.{assign, rev_onto, space, allocuvm_lem}
use operating_systems_cs.Memory.Leak.{allocuvm_loses}

-- The first table is there.
abbrev first_table : ℕ → Bool
first_table x = ltb x 1

abbrev two_pages : Ptes
two_pages x = if ltb x 2 then some (x + 1, true) else none

abbrev pages : List ℕ
pages = 7 ∷ 8 ∷ 9 ∷ []

allocuvm_lem_example :
    ((2 ≤ length pages)
      × (allocuvm 5000 12289 (space first_table two_pages pages)
          ≡ returns 12289 (
              space first_table (assign (pgroundup 5000) (take 2 pages) two_pages) (drop 2 pages))))
    ⊎ ((length pages < 2)
        × (allocuvm 5000 12289 (space first_table two_pages pages)
            ≡ returns 0 (space first_table two_pages (rev_onto pages []))))
allocuvm_lem_example =
    allocuvm_lem 5000 12289 2 first_table two_pages pages (omega arith) (omega arith) refl
      (record { tabled = λ x a b. ground arith; unmapped = λ x a b. ground arith })
      (omega arith, (omega arith, (omega arith, tt)))

-- The process ends at the end of its first table.
allocuvm_loses_example :
    allocuvm 4194304 4194305 (space first_table two_pages (7 ∷ []))
    ≡ returns 4194305 (space first_table two_pages [])
allocuvm_loses_example =
    allocuvm_loses 4194304 4194305 7 first_table two_pages (omega arith) refl refl
