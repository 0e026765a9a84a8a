-- ===== src/Strings/Compare.antt =====
-- `strncmp` returns 0 exactly for strings that agree up to their end or up to `n` bytes.
use operating_systems_cs.Prelude.{
  ℕ, zero, suc, ◌+◌, ◌<◌, ◌≡◌, ◌↔◌, refl, sym, ap, ◌∙◌, inl, inr, Bool, true, ◌&&◌, arith, ◌==◌,
  if◌then◌else◌, Bool-cases, eq_of_eqb,
}
use operating_systems_cs.Strings.{Memory, byte_diff, memcmp, strncmp}

abbrev pub IsBytes : Memory → Type 0
IsBytes m = (a : ℕ) → m a < 256

-- The strings at `p` and `q` agree up to `n` bytes: equal bytes up to a 0, which both have.
abbrev pub agree : ℕ → ℕ → ℕ → Memory → Bool
agree zero p q m = true
agree (suc n) p q m = (m p == m q) && (if m p == 0 then true else agree n (p + 1) (q + 1) m)

byte_diff_zero : (a b : ℕ) → a < 256 → b < 256 → byte_diff a b ≡ 0 → a ≡ b
byte_diff_zero a b ha hb h = omega arith

-- `strncmp` on bytes returns 0 exactly when the two strings agree up to their end or up to `n` bytes.
pub strncmp_iff :
    (n p q : ℕ) (m : Memory) → IsBytes m → (strncmp n p q m ≡ 0) ↔ (agree n p q m ≡ true)
unfolding strncmp
strncmp_iff zero p q m h = (λ e. refl, λ e. refl)
strncmp_iff (suc n) p q m h =
    let ih = strncmp_iff n (p + 1) (q + 1) m h in
    (λ e. ground (arith, ih.0, byte_diff_zero (m p) (m q) (h p) (h q)), λ e. ground (arith, ih.1))

first : (n p q : ℕ) (m : Memory) → ((i : ℕ) → i < suc n → m (p + i) ≡ m (q + i)) → m p ≡ m q
first n p q m all =
    let ep : p + 0 ≡ p = omega arith in
    let eq : q + 0 ≡ q = omega arith in sym (ap m ep) ∙ all 0 (omega arith) ∙ ap m eq

shift :
    (n p q : ℕ) (m : Memory)
    → ((i : ℕ) → i < suc n → m (p + i) ≡ m (q + i))
    → (i : ℕ) → i < n
    → m (p + 1 + i) ≡ m (q + 1 + i)
shift n p q m all i lt =
    let ep : p + 1 + i ≡ p + suc i = omega arith in
    let eq : q + 1 + i ≡ q + suc i = omega arith in
    ap m ep ∙ all (suc i) (omega arith) ∙ sym (ap m eq)

first_or_later :
    (n p q : ℕ) (m : Memory)
    → m p ≡ m q
    → ((i : ℕ) → i < n → m (p + 1 + i) ≡ m (q + 1 + i))
    → (i : ℕ) → i < suc n
    → m (p + i) ≡ m (q + i)
first_or_later n p q m same later zero lt =
    let ep : p + 0 ≡ p = omega arith in
    let eq : q + 0 ≡ q = omega arith in ap m ep ∙ same ∙ sym (ap m eq)
first_or_later n p q m same later (suc i) lt =
    let ep : p + 1 + i ≡ p + suc i = omega arith in
    let eq : q + 1 + i ≡ q + suc i = omega arith in sym (ap m ep) ∙ later i (omega arith) ∙ ap m eq

-- `memcmp` on bytes returns 0 exactly when the two arrays are equal.
pub memcmp_iff :
    (n p q : ℕ) (m : Memory)
    → IsBytes m
    → (memcmp n p q m ≡ 0) ↔ ((i : ℕ) → i < n → m (p + i) ≡ m (q + i))
unfolding memcmp
memcmp_iff zero p q m h = (λ e i lt. absurd (omega arith), λ e. refl)
memcmp_iff (suc n) p q m h =
    let ih = memcmp_iff n (p + 1) (q + 1) m h in
    elim (Bool-cases (m p == m q)) [
      | inl same ↦ rw same (
        λ e i lt. first_or_later n p q m (eq_of_eqb (m p) (m q) same) (ih.0 e) i lt,
        λ all. ih.1 (λ i lt. shift n p q m all i lt),
      )
      | inr other ↦ rw other (
        λ e. absurd (ground (arith, byte_diff_zero (m p) (m q) (h p) (h q))),
        λ all. absurd (let e = first n p q m all in ground arith),
      )
    ]
