-- ===== src/Spin/Tests.antt =====
-- Two processors at a lock, and the theorems at them.
use operating_systems_cs.Prelude.{ℕ, ◌≡◌, refl, inl, true, false}
use operating_systems_cs.Spin.{
  Cpu, initlock, idle, spinning, System, enter, spin, enter_step, spin_step, Reach, begin, next,
}
use operating_systems_cs.Spin.Exclusion.{inside, spin_exclusion}

abbrev fresh_cpu : Cpu
fresh_cpu = record { iflag = true; ncli = 0; intena = false }

abbrev quiet : System
quiet = record { lock = initlock; cpus = λ _. fresh_cpu; phase = λ _. idle }

quiet-Reach : Reach quiet
quiet-Reach = begin refl (λ i. refl) (λ i. inl refl)

entered-Reach : Reach (enter 0 quiet)
entered-Reach = next quiet-Reach (enter_step 0 refl refl)

spins : (enter 0 quiet).phase 0 ≡ spinning
unfolding enter initlock
spins = refl

taken-Reach : Reach (spin 0 (enter 0 quiet))
taken-Reach = next entered-Reach (spin_step 0 spins refl)

in_zero : inside ((spin 0 (enter 0 quiet)).phase 0) ≡ true
unfolding spin enter initlock
in_zero = refl

spin_exclusion_example : ◌≡◌ {A = ℕ} 0 0
spin_exclusion_example = spin_exclusion taken-Reach 0 0 in_zero in_zero
