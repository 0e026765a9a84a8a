-- ===== src/Drive/Tests.antt =====
-- The driver with one request, to which a second one comes.
use operating_systems_cs.Prelude.{
  ℕ, ◌+◌, ◌<◌, ◌≡◌, refl, true, false, arith, [], ◌∷◌, ◌++◌, ◌==◌, some, has,
}
use operating_systems_cs.Bio.{Buf}
use operating_systems_cs.Drive.{Drive, command, idestart, iderw}
use operating_systems_cs.Drive.Steps.{asked, IsDrive, Step, requests, Step-IsDrive}
use operating_systems_cs.Drive.Fifo.{stays, then_step, Steps-in_order}
use operating_systems_cs.Drive.Serve.{Finishes, then_drain, iderw-Finishes}

-- Even buffers are to be read, odd ones are to be written.
abbrev buf : ℕ → Buf
buf i = record {
  slot = i;
  dev = 1;
  blockno = 300 + i;
  busy = true;
  valid = false;
  dirty = i == 3;
  bytes = 7;
}

abbrev one_request : Drive
one_request = record {
  bufs = buf;
  queue = 2 ∷ [];
  active = some (command (buf 2));
  woken = [];
  havedisk1 = true;
}

one_request-IsDrive : IsDrive one_request
unfolding asked
one_request-IsDrive = record { working = refl; pending = λ b there. (refl, refl); once = refl }

abbrev two_requests : Drive
two_requests = record one_request { queue = 2 ∷ 3 ∷ [] }

second_comes : Step (3 ∷ []) one_request two_requests
unfolding iderw idestart
second_comes = requests 3 refl refl

Step-IsDrive_example : IsDrive two_requests
Step-IsDrive_example = Step-IsDrive second_comes one_request-IsDrive

Steps-in_order_example :
    two_requests.woken ++ two_requests.queue ≡ (one_request.woken ++ one_request.queue) ++ (3 ∷ [])
Steps-in_order_example = Steps-in_order (then_step stays second_comes)

iderw-Finishes_example :
    Finishes one_request
      (2 ∷ 3 ∷ [])
      (then_drain ((true, 9) ∷ (false, 9) ∷ []) (iderw 3 one_request))
iderw-Finishes_example =
    iderw-Finishes one_request 3 ((true, 9) ∷ (false, 9) ∷ []) one_request-IsDrive refl refl refl
      refl on refl
  where
    on : (b : ℕ) → has b (2 ∷ 3 ∷ []) ≡ true → 300 + b < 1000
    on b there = ground arith
