-- ===== src/Strings/Move.antt =====
-- `memmove` copies overlapping arrays right.
use operating_systems_cs.Prelude.{
  ℕ, zero, suc, ◌+◌, ◌-◌, ◌%◌, ◌≤◌, ◌≡◌, ap, ◌∙◌, ◌⊎◌, inl, inr, ◌&&◌, arith, ltb, leb, ◌==◌,
  if◌then◌else◌, Bool-cases, update,
}
use operating_systems_cs.Strings.{Memory, memset, copy_down, copy_up, memmove}

-- The memory with the `n` bytes from `s` on at `d`.
abbrev pub moved : ℕ → ℕ → ℕ → Memory → Memory
moved n d s m a = if leb d a && ltb a (d + n) then m (s + (a - d)) else m a

copy_down_lem : (n d s : ℕ) (m : Memory) → s ≤ d → (a : ℕ) → copy_down n d s m a ≡ moved n d s m a
unfolding copy_down
copy_down_lem zero d s m h a = ground arith
copy_down_lem (suc n) d s m h a =
    copy_down_lem n d s (update m (d + n) (m (s + n))) h a ∙ elim (Bool-cases (d + n == a)) [
      | inl same ↦ let e : s + (a - d) ≡ s + n = ground arith in ground (arith, ap m e)
      | inr other ↦ ground arith
    ]

copy_up_lem :
    (n d s : ℕ) (m : Memory) → (d ≤ s) ⊎ (s + n ≤ d) → (a : ℕ) → copy_up n d s m a ≡ moved n d s m a
unfolding copy_up
copy_up_lem zero d s m h a = ground arith
copy_up_lem (suc n) d s m h a =
    copy_up_lem n (d + 1) (s + 1) (update m d (m s)) (omega arith) a ∙ elim (Bool-cases (d == a)) [
      | inl same ↦ let e : s + (a - d) ≡ s = ground arith in ground (arith, ap m e)
      | inr other ↦ elim (Bool-cases (leb (d + 1) a)) [
        | inl past ↦
            let e : s + 1 + (a - (d + 1)) ≡ s + (a - d) = ground arith in ground (arith, ap m e)
        | inr before ↦ ground arith
      ]
    ]

-- `memmove` puts the `n` bytes that stood at `src` at `dst`, also where the two arrays overlap either
-- way, and changes no other byte.
pub memmove_lem :
    (dst src n : ℕ) (m : Memory) (a : ℕ)
    → memmove dst src n m a ≡ (if leb dst a && ltb a (dst + n) then m (src + (a - dst)) else m a)
unfolding memmove
memmove_lem dst src n m a = elim (Bool-cases (ltb src dst && ltb dst (src + n))) [
  | inl overlap ↦ rw overlap (copy_down_lem n dst src m (ground arith) a)
  | inr apart ↦ rw apart (copy_up_lem n dst src m (ground arith) a)
]

-- `memset` fills exactly the `n` bytes from `dst` on.
pub memset_lem :
    (n dst c : ℕ) (m : Memory) (a : ℕ)
    → memset dst c n m a ≡ (if leb dst a && ltb a (dst + n) then c % 256 else m a)
unfolding memset
memset_lem zero dst c m a = ground arith
memset_lem (suc n) dst c m a = memset_lem n (dst + 1) c (update m dst (c % 256)) a ∙ ground arith
