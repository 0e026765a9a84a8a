-- ===== src/Spin/Interrupts.antt =====
-- `popcli` undoes `pushcli`.
use operating_systems_cs.Prelude.{
  ◌+◌, ◌-◌, ◌≡◌, refl, Bool, false, ◌&&◌, arith, ◌==◌, if◌then◌else◌, some,
}
use operating_systems_cs.Spin.{Cpu, pushcli, popcli, Matched}

-- On a matched processor `popcli` after `pushcli` does not panic, and it restores the interrupt flag and
-- the depth; in between interrupts are off.
pub popcli-pushcli :
    (c : Cpu)
    → Matched c
    → ((pushcli c).iflag ≡ false)
      × ((d : Cpu) × (popcli (pushcli c) ≡ some d) × (d.iflag ≡ c.iflag) × (d.ncli ≡ c.ncli))
unfolding pushcli popcli
popcli-pushcli c m = (refl, (after, ground arith, ground arith, ground arith))
  where
    intena' : Bool
    intena' = if c.ncli == 0 then c.iflag else c.intena

    after : Cpu
    after = record {
      iflag = (c.ncli + 1 - 1 == 0) && intena';
      ncli = c.ncli + 1 - 1;
      intena = intena';
    }
