-- ===== src/Strings.antt =====
-- project4/string.c: the operations on bytes in memory. The memory is an array of bytes; an array that
-- an operation is given does not wrap round the end of the address space.
pub mod Move
pub mod Compare
pub mod Copy
pub mod Tests
use operating_systems_cs.Prelude.{
  ℕ, zero, suc, ◌+◌, ◌-◌, ◌%◌, ◌^◌, Bool, true, false, not, ◌&&◌, ltb, ◌==◌, if◌then◌else◌, Option,
  none, some, update,
}

abbrev pub Memory : Type 0
Memory = ℕ → ℕ

-- `stosb` and `stosl` write the byte `c` to each of the `n` bytes.
pub memset : ℕ → ℕ → ℕ → Memory → Memory
memset dst c zero m = m
memset dst c (suc n) m = memset (dst + 1) c n (update m dst (c % 256))

-- The two loops of `memmove`, over the `n` bytes from `s` to `d` on.
pub copy_down : ℕ → ℕ → ℕ → Memory → Memory
copy_down zero d s m = m
copy_down (suc n) d s m = copy_down n d s (update m (d + n) (m (s + n)))

pub copy_up : ℕ → ℕ → ℕ → Memory → Memory
copy_up zero d s m = m
copy_up (suc n) d s m = copy_up n (d + 1) (s + 1) (update m d (m s))

pub memmove : ℕ → ℕ → ℕ → Memory → Memory
unfolding copy_down copy_up
memmove dst src n m =
    if ltb src dst && ltb dst (src + n) then copy_down n dst src m else copy_up n dst src m

pub memcpy : ℕ → ℕ → ℕ → Memory → Memory
unfolding memmove
memcpy dst src n m = memmove dst src n m

-- The difference of two bytes as an int, a 32-bit pattern.
abbrev pub byte_diff : ℕ → ℕ → ℕ
byte_diff a b = (a + 2 ^ 32 - b) % 2 ^ 32

pub memcmp : ℕ → ℕ → ℕ → Memory → ℕ
memcmp zero s1 s2 m = 0
memcmp (suc n) s1 s2 m =
    let rest = memcmp n (s1 + 1) (s2 + 1) m in
    if m s1 == m s2 then rest else byte_diff (m s1) (m s2)

pub strncmp : ℕ → ℕ → ℕ → Memory → ℕ
strncmp zero p q m = 0
strncmp (suc n) p q m =
    let rest = strncmp n (p + 1) (q + 1) m in
    if not (m p == 0) && (m p == m q) then rest else byte_diff (m p) (m q)

-- The second loop of `strncpy`.
pub pad : ℕ → ℕ → Memory → Memory
pad zero s m = m
pad (suc n) s m = pad n (s + 1) (update m s 0)

pub strncpy : ℕ → ℕ → ℕ → Memory → Memory
unfolding pad
strncpy zero s t m = m
strncpy (suc n) s t m =
    let c = m t in
    let stop = pad n (s + 1) (update m s c) in
    let rest = strncpy n (s + 1) (t + 1) (update m s c) in if c == 0 then stop else rest

-- `safestrcpy` with `n` more bytes than the one for the final 0.
pub safe_loop : ℕ → ℕ → ℕ → Memory → Memory
safe_loop zero s t m = update m s 0
safe_loop (suc n) s t m =
    let c = m t in
    let rest = safe_loop n (s + 1) (t + 1) (update m s c) in
    if c == 0 then update (update m s c) (s + 1) 0 else rest

pub safestrcpy : ℕ → ℕ → ℕ → Memory → Memory
unfolding safe_loop
safestrcpy zero s t m = m
safestrcpy (suc n) s t m = safe_loop n s t m

abbrev pub one_more : Option ℕ → Option ℕ
one_more none = none
one_more (some k) = some (suc k)

-- `strlen` over at most `n` bytes; `none` if there is no 0 among them.
pub strlen : ℕ → ℕ → Memory → Option ℕ
strlen zero s m = none
strlen (suc n) s m = let rest = one_more (strlen n (s + 1) m) in if m s == 0 then some 0 else rest
