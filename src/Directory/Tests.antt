-- ===== src/Directory/Tests.antt =====
-- An empty directory, and the theorems at it.
use operating_systems_cs.Prelude.{ℕ, ◌≡◌, refl, true, ◌==◌, if◌then◌else◌}
use operating_systems_cs.Content.{Blocks, Node}
use operating_systems_cs.Directory.{same_name, copy_name}

abbrev blank : Blocks
blank = record {
  size = 10;
  used = λ b. b == 0;
  bytes = λ b i. 0;
  log_takes = λ k. true;
  logged = 0;
}

abbrev empty : Node
empty = record { addrs = λ i. 0; size = 0 }

-- The name `ab`.
abbrev name : ℕ → ℕ
name i = if i == 0 then 97 else if i == 1 then 98 else 0

copied : same_name 14 name (copy_name 14 name) ≡ true
unfolding same_name copy_name
copied = refl
