-- ===== src/Args.antt =====
-- project4/syscall.c: how the kernel fetches the arguments of a system call. Addresses and ints are
-- 32-bit patterns; `sz` is the size of the process's memory, `word` the 32-bit word at an address,
-- `byte` the byte at one.
pub mod Fetch
pub mod Tests
use operating_systems_cs.Prelude.{
  ℕ, zero, suc, ◌+◌, ◌-◌, ◌*◌, ◌%◌, ◌^◌, Bool, true, false, ◌||◌, ltb, leb, ◌==◌, if◌then◌else◌,
  Option, none, some,
}

-- `fetchint`; `none` is its result -1.
pub fetchint : (ℕ → ℕ) → ℕ → ℕ → Option ℕ
fetchint word sz addr =
    if leb sz addr || ltb sz ((addr + 4) % 2 ^ 32) then none else some (word addr)

abbrev pub one_more : Option ℕ → Option ℕ
one_more none = none
one_more (some k) = some (suc k)

-- The loop of `fetchstr` over the `n` bytes from `s` on.
pub scan : ℕ → (ℕ → ℕ) → ℕ → Option ℕ
scan zero byte s = none
scan (suc n) byte s =
    let rest = one_more (scan n byte (s + 1)) in if byte s == 0 then some 0 else rest

-- The length of the string at `addr`.
pub fetchstr : (ℕ → ℕ) → ℕ → ℕ → Option ℕ
unfolding scan
fetchstr byte sz addr = if leb sz addr then none else scan (sz - addr) byte addr

pub argint : (ℕ → ℕ) → ℕ → ℕ → ℕ → Option ℕ
unfolding fetchint
argint word sz esp n = fetchint word sz ((esp + 4 + 4 * n) % 2 ^ 32)

-- `argptr`: the address of a block of `size` bytes.
pub argptr : (ℕ → ℕ) → ℕ → ℕ → ℕ → ℕ → Option ℕ
unfolding argint
argptr word sz esp n size = elim (argint word sz esp n) [
  | none ↦ none
  | some i ↦ if leb sz i || ltb sz ((i + size) % 2 ^ 32) then none else some i
]

-- `argstr`: the address of a string and its length.
pub argstr : (ℕ → ℕ) → (ℕ → ℕ) → ℕ → ℕ → ℕ → Option (ℕ × ℕ)
unfolding argint fetchstr
argstr word byte sz esp n = elim (argint word sz esp n) [
  | none ↦ none
  | some addr ↦ elim (fetchstr byte sz addr) [ none ↦ none | some len ↦ some (addr, len) ]
]
