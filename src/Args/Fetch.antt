-- ===== src/Args/Fetch.antt =====
-- An argument that the kernel accepts lies in the memory of the process.
use operating_systems_cs.Prelude.{
  ℕ, zero, suc, ◌+◌, ◌-◌, ◌%◌, ◌^◌, ◌≤◌, ◌<◌, ◌≡◌, ◌≢◌, refl, sym, ap, ◌∙◌, ◌⊎◌, inl, inr, true,
  false, ◌||◌, arith, ltb, leb, ◌==◌, if◌then◌else◌, Bool-cases, none, some,
}
use operating_systems_cs.Args.{fetchint, scan, fetchstr, argint, argptr}

-- For a process of at most 2 GB, `fetchint` reads a word exactly when its four bytes lie in the memory.
pub fetchint_lem :
    (word : ℕ → ℕ) (sz addr : ℕ)
    → sz ≤ 2 ^ 31
    → addr < 2 ^ 32
    → ((addr + 4 ≤ sz) × (fetchint word sz addr ≡ some (word addr)))
      ⊎ ((sz < addr + 4) × (fetchint word sz addr ≡ none))
unfolding fetchint
fetchint_lem word sz addr hs ha = elim (Bool-cases (leb (addr + 4) sz)) [
  | inl fits ↦ inl (ground arith, ground arith)
  | inr not_fits ↦ inr (ground arith, ground arith)
]

-- The bytes from `s` on have their first 0 after `k` others, inside `n` bytes.
abbrev pub Ends : ℕ → (ℕ → ℕ) → ℕ → ℕ → Type 0
Ends k byte s n = (k < n) × (byte (s + k) ≡ 0) × ((i : ℕ) → i < k → byte (s + i) ≢ 0)

abbrev pub NoEnd : (ℕ → ℕ) → ℕ → ℕ → Type 0
NoEnd byte s n = (i : ℕ) → i < n → byte (s + i) ≢ 0

before : (k : ℕ) (byte : ℕ → ℕ) (s : ℕ) → byte s ≢ 0 → NoEnd byte (s + 1) k → NoEnd byte s (suc k)
before k byte s here later zero lt e =
    let es : s + 0 ≡ s = omega arith in here (sym (ap byte es) ∙ e)
before k byte s here later (suc i) lt e =
    let es : s + 1 + i ≡ s + suc i = omega arith in later i (omega arith) (ap byte es ∙ e)

scan_lem :
    (n : ℕ) (byte : ℕ → ℕ) (s : ℕ)
    → ((k : ℕ) × (scan n byte s ≡ some k) × Ends k byte s n)
      ⊎ ((scan n byte s ≡ none) × NoEnd byte s n)
unfolding scan
scan_lem zero byte s = inr (refl, λ i lt e. omega arith)
scan_lem (suc n) byte s = elim (Bool-cases (byte s == 0)) [
  | inl stop ↦
      let es : s + 0 ≡ s = omega arith in
      inl (0, rw stop refl, (omega arith, ap byte es ∙ eq0 stop, λ i lt e. omega arith))
  | inr more ↦ elim (scan_lem n byte (s + 1)) [
    | inl hit ↦
        let (k, e, ends) = hit in
        let (lt, z, nz) = ends in
        let es : s + suc k ≡ s + 1 + k = omega arith in
        inl (suc k, rw (more, e) refl, (omega arith, ap byte es ∙ z, before k byte s (ne0 more) nz))
    | inr miss ↦ let (e, nz) = miss in inr (rw (more, e) refl, before n byte s (ne0 more) nz)
  ]
]
  where
    eq0 : (byte s == 0) ≡ true → byte s ≡ 0
    eq0 h = ground arith

    ne0 : (byte s == 0) ≡ false → byte s ≢ 0
    ne0 h e = ground arith

-- `fetchstr` returns the length of the string at `addr` when its bytes up to the final 0 lie in the memory
-- of the process, and fails when there is no 0 from `addr` to the end of the memory.
pub fetchstr_lem :
    (byte : ℕ → ℕ) (sz addr : ℕ)
    → ((k : ℕ) × (fetchstr byte sz addr ≡ some k) × Ends k byte addr (sz - addr))
      ⊎ ((fetchstr byte sz addr ≡ none) × NoEnd byte addr (sz - addr))
unfolding fetchstr
fetchstr_lem byte sz addr = elim (Bool-cases (leb sz addr)) [
  | inl outside ↦ inr (rw outside refl, λ i lt e. ground arith)
  | inr inside ↦ rw inside (scan_lem (sz - addr) byte addr)
]

argptr_at :
    (word : ℕ → ℕ) (sz esp n size i : ℕ)
    → argint word sz esp n ≡ some i
    → argptr word sz esp n size
      ≡ (if leb sz i || ltb sz ((i + size) % 2 ^ 32) then none else some i)
unfolding argptr
argptr_at word sz esp n size i e = rw (e, argptr) refl

-- For a process of at most 2 GB, and a size that is not negative as an int, `argptr` accepts a fetched
-- 32-bit address exactly when it and the end of its block lie in the memory.
pub argptr_lem :
    (word : ℕ → ℕ) (sz esp n size i : ℕ)
    → sz ≤ 2 ^ 31
    → size < 2 ^ 31
    → i < 2 ^ 32
    → argint word sz esp n ≡ some i
    → ((i < sz) × (i + size ≤ sz) × (argptr word sz esp n size ≡ some i))
      ⊎ (((sz ≤ i) ⊎ (sz < i + size)) × (argptr word sz esp n size ≡ none))
argptr_lem word sz esp n size i hs hz hi e =
    rw (argptr_at word sz esp n size i e) (elim (Bool-cases (leb sz i)) [
      | inl out ↦ inr (inl (ground arith), ground arith)
      | inr fits ↦ elim (Bool-cases (ltb sz (i + size))) [
        | inl long ↦ inr (inr (ground arith), ground arith)
        | inr short ↦ inl (ground arith, ground arith, ground arith)
      ]
    ])

-- `argptr` accepts every fetched address in the memory with a size that is a negative int of a magnitude
-- of at most the address.
pub argptr_negative :
    (word : ℕ → ℕ) (sz esp n k i : ℕ)
    → sz ≤ 2 ^ 31
    → 0 < k
    → k ≤ i
    → i < sz
    → argint word sz esp n ≡ some i
    → argptr word sz esp n (2 ^ 32 - k) ≡ some i
argptr_negative word sz esp n k i hs pos hk hi e =
    argptr_at word sz esp n (2 ^ 32 - k) i e ∙ ground arith
