-- ===== src/Upipe/Tests.antt =====
-- A pipe of four bytes, and the theorems at it.
use operating_systems_cs.Prelude.{ℕ, ◌^◌, ◌≤◌, ◌<◌, ◌≡◌, List, arith, length, ◌==◌, if◌then◌else◌}
use operating_systems_cs.Upipe.{Upipe, got, upipe_read}
use operating_systems_cs.Upipe.Counts.{IsValid, upipe_overread}

abbrev two_bytes : Upipe
two_bytes = record {
  bytes = λ i. if i == 0 then 65 else 66;
  read_index = 4;
  write_index = 6;
  count = 2;
  size = 4;
}

two_bytes-IsValid : IsValid two_bytes
two_bytes-IsValid = record {
  size_pos = omega arith;
  size_lt = omega arith;
  read_lt = omega arith;
  counted = omega arith;
  fits = omega arith;
}

upipe_overread_example :
    (bs : List ℕ) × (q : Upipe) × (upipe_read 3 two_bytes ≡ got bs q)
    × (length bs ≡ 3)
    × (q.write_index < q.read_index)
    × (2 ^ 31 ≤ q.count)
upipe_overread_example =
    upipe_overread 3 two_bytes two_bytes-IsValid (omega arith) (omega arith) (omega arith)
