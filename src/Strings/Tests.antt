-- ===== src/Strings/Tests.antt =====
-- A memory of bytes, and the theorems at it.
use operating_systems_cs.Prelude.{◌%◌, arith}
use operating_systems_cs.Strings.{Memory}
use operating_systems_cs.Strings.Compare.{IsBytes}

abbrev bytes : Memory
bytes a = a % 256

bytes-IsBytes : IsBytes bytes
bytes-IsBytes a = omega arith
