-- ===== src/Drive/Registers.antt =====
-- The command that `idestart` gives names the block of the buffer.
use operating_systems_cs.Prelude.{ℕ, ◌+◌, ◌*◌, ◌/◌, ◌%◌, ◌^◌, ◌<◌, ◌≡◌, arith}
use operating_systems_cs.Bio.{Buf}
use operating_systems_cs.Drive.{Command, command}

-- What the controller makes of its registers: the drive and the sector.
abbrev pub drive_of : Command → ℕ
drive_of c = c.select / 2 ^ 4 % 2

abbrev pub sector_of : Command → ℕ
sector_of c = c.sector0 + 2 ^ 8 * c.sector1 + 2 ^ 16 * c.sector2 + 2 ^ 24 * (c.select % 2 ^ 4)

-- The registers hold bytes, the drive is the lowest bit of the device, and the sector is the block, for any
-- block number below 2 ^ 28.
pub command_lem :
    (b : Buf)
    → b.blockno < 2 ^ 28
    → (drive_of (command b) ≡ b.dev % 2)
      × (sector_of (command b) ≡ b.blockno)
      × ((command b).sector0 < 256)
      × ((command b).sector1 < 256)
      × ((command b).sector2 < 256)
      × ((command b).select < 256)
unfolding command
command_lem b h = (omega arith, omega arith, omega arith, omega arith, omega arith, omega arith)
