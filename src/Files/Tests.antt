-- ===== src/Files/Tests.antt =====
-- A process with one open file, and the theorems at it.
use operating_systems_cs.Prelude.{
  ◌+◌, ◌≡◌, refl, false, arith, ◌==◌, if◌then◌else◌, none, some, update, find,
}
use operating_systems_cs.Files.{
  fd_none, File, Files, returns, Closing, kept, closing_of, sys_dup, close_fd,
}
use operating_systems_cs.Files.Tally.{tally, in_all}
use operating_systems_cs.Files.Counts.{Counted, Names, close_fd_lem, one_more}
use operating_systems_cs.Files.Calls.{link-Counted}

abbrev unopened : File
unopened = record {
  type = fd_none;
  ref = 0;
  readable = false;
  writable = false;
  pipe = 0;
  ip = 0;
  off = 0;
}

abbrev opened : Files
opened = record {
  table = update (λ _. unopened) 5 (record unopened { ref = 0 + 1 });
  ofiles = update (λ _ _. none) 1 (update (λ _. none) 3 (some 5));
}

abbrev empty : Files
empty = record { table = λ _. unopened; ofiles = λ _ _. none }

empty-Counted : Counted empty
unfolding tally
empty-Counted = record { refs = λ f. refl }

opened-Counted : Counted opened
opened-Counted = link-Counted empty 1 3 5 (omega arith) (omega arith) refl empty-Counted

opened-Names : Names opened 1 3 5
opened-Names = record { process = omega arith; descriptor = omega arith; entry = refl }

dup_returns_first_free :
    sys_dup 1 3 opened
    ≡ returns 0 (record {
      table = one_more 5 opened.table;
      ofiles = update opened.ofiles 1 (update (opened.ofiles 1) 0 (some 5));
    })
unfolding sys_dup find
dup_returns_first_free = refl

close_fd_lem_example :
    (s' : Files) × (c : Closing) × (close_fd 1 3 5 opened ≡ some (s', c))
    × Counted s'
    × (s'.ofiles ≡ update opened.ofiles 1 (update (opened.ofiles 1) 3 none))
    × (c ≡ (if in_all 5 s'.ofiles == 0 then closing_of (opened.table 5) else kept))
close_fd_lem_example = close_fd_lem opened 1 3 5 opened-Counted opened-Names
