-- ===== src/Kalloc/Tests.antt =====
-- Two pages, and the theorems at them.
use operating_systems_cs.Prelude.{ℕ, refl, List, [], ◌∷◌, arith}
use operating_systems_cs.Kalloc.{Kmem}
use operating_systems_cs.Kalloc.Pages.{Free}

abbrev boot : Kmem
boot = record { freelist = 0; word = λ _. 0 }

abbrev one_page : Kmem
one_page = record { freelist = 0x8020_0000; word = λ _. 0 }

abbrev single : List ℕ
single = 0x8020_0000 ∷ []

boot-Free : Free boot []
boot-Free = record { chain = refl; distinct = tt }

one_page-Free : Free one_page (0x8020_0000 ∷ [])
one_page-Free = record { chain = (refl, omega arith, refl); distinct = (refl, tt) }
