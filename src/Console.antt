-- ===== src/Console.antt =====
-- project4/console.c: the input buffer of the console, its edits by `consoleintr` and the loop of
-- `consoleread`. Indices are 32-bit patterns. `cons.lock` is held from one sleep to the next; what is
-- echoed on the screen and the process listing of control-P are left out.
pub mod Lines
pub mod Reads
pub mod Tests
use operating_systems_cs.Prelude.{
  ℕ, zero, suc, ◌+◌, ◌-◌, ◌%◌, ◌^◌, Bool, true, false, not, ◌&&◌, ◌||◌, List, [], ◌∷◌, ltb, ◌==◌,
  if◌then◌else◌, update,
}

abbrev pub input_buf : ℕ
input_buf = 128

-- `input`: the indices of reading, of writing and of editing.
pub record Input : Type 0 where
  pub bytes : ℕ → ℕ
  pub r : ℕ
  pub w : ℕ
  pub e : ℕ

abbrev pub ctrl_d : ℕ
ctrl_d = 4

abbrev pub newline : ℕ
newline = 10

-- `input.e--`.
abbrev pub back : ℕ → ℕ
back i = (i + 2 ^ 32 - 1) % 2 ^ 32

-- `b - a` in 32 bits.
abbrev pub distance : ℕ → ℕ → ℕ
distance a b = (b + 2 ^ 32 - a) % 2 ^ 32

-- The loop of control-U, on the fuel of the bytes in the line that is edited.
pub kill_line : ℕ → Input → Input
kill_line zero s = s
kill_line (suc n) s =
    let rest = kill_line n (record s { e = back s.e }) in
    if (s.e == s.w) || (s.bytes (back s.e % input_buf) == newline) then s else rest

pub backspace : Input → Input
backspace s = if s.e == s.w then s else record s { e = back s.e }

abbrev pub normal : ℕ → ℕ
normal c = if c == 13 then newline else c

abbrev pub ends_line : ℕ → Input → Bool
ends_line c s =
    (normal c == newline)
    || (normal c == ctrl_d)
    || ((s.e + 1) % 2 ^ 32 == (s.r + input_buf) % 2 ^ 32)

-- The last case of the switch, with whether it wakes the readers.
pub accept : ℕ → Input → Input × Bool
accept c s =
    if not (c == 0) && ltb (distance s.r s.e) input_buf
    then (
      record s {
        bytes = update s.bytes (s.e % input_buf) (normal c % 256);
        e = (s.e + 1) % 2 ^ 32;
        w = if ends_line c s then (s.e + 1) % 2 ^ 32 else s.w;
      },
      ends_line c s,
    )
    else (s, false)

pub typed : ℕ → Input → Input × Bool
unfolding kill_line backspace accept
typed c s =
    if c == 16
    then (s, false)
    else if c == 21
    then (kill_line (distance s.w s.e) s, false)
    else if (c == 8) || (c == 127)
    then (backspace s, false)
    else accept c s

pub consoleintr : List ℕ → Input → Input × Bool
unfolding typed
consoleintr [] s = (s, false)
consoleintr (c ∷ cs) s =
    let (s1, woke) = typed c s in let (s2, later) = consoleintr cs s1 in (s2, woke || later)

-- What `consoleread` has read when it returns, or when it waits for more.
pub data ReadEnd : Type 0 where
  done : List ℕ → Input → ReadEnd
  waits : List ℕ → Input → ReadEnd
  failed : Input → ReadEnd

abbrev pub after : ℕ → ReadEnd → ReadEnd
after c (done bs s) = done (c ∷ bs) s
after c (waits bs s) = waits (c ∷ bs) s
after c (failed s) = failed s

-- The loop of `consoleread` with `n` bytes to go, `started` after the first; a killed process does not
-- wait.
pub read_line : Bool → ℕ → Bool → Input → ReadEnd
read_line killed zero started s = done [] s
read_line killed (suc n) started s =
    let c = s.bytes (s.r % input_buf) in
    let next = record s { r = (s.r + 1) % 2 ^ 32 } in
    let rest = after c (read_line killed n true next) in
    if s.r == s.w
    then (if killed then failed s else waits [] s)
    else if c == ctrl_d
    then done [] (if started then s else next)
    else if c == newline
    then done (c ∷ []) next
    else rest

pub consoleread : Bool → ℕ → Input → ReadEnd
unfolding read_line
consoleread killed n s = read_line killed n false s
