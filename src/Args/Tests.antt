-- ===== src/Args/Tests.antt =====
-- A process of 64 bytes whose stack pointer is 40, and the theorems at it.
use operating_systems_cs.Prelude.{ℕ, ◌≡◌, refl, ◌==◌, if◌then◌else◌, some}
use operating_systems_cs.Args.{argint, argstr}

abbrev word : ℕ → ℕ
word a = if a == 44 then 16 else 8

abbrev byte : ℕ → ℕ
byte a = if a == 19 then 0 else 65

argint_reads : argint word 64 40 0 ≡ some 16
unfolding argint
argint_reads = refl

argstr_reads : argstr word byte 64 40 0 ≡ some (16, 3)
unfolding argstr
argstr_reads = refl
