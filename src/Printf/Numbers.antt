-- ===== src/Printf/Numbers.antt =====
-- `atoi` reads what `printint` writes, and the buffer of `printint` is large enough.
use operating_systems_cs.Prelude.{
  ℕ, zero, suc, ◌+◌, ◌-◌, ◌*◌, ◌/◌, ◌%◌, ◌^◌, ◌≤◌, ◌<◌, ◌≡◌, refl, ap, ◌∙◌, ◌⊎◌, inl, inr, Bool,
  true, false, Bool-cases, arith, List, [], ◌∷◌, ◌++◌, length, ltb, ◌==◌,
}
use operating_systems_cs.Printf.{digit_char, digits, backwards, negative, printint, atoi_from, atoi}

-- The powers of 10, from which `omega` can read off the next.
abbrev power : ℕ → ℕ
power zero = 1
power (suc k) = 10 * power k

-- Reading one more digit.
atoi_digit :
    (n d : ℕ) (cs : List ℕ)
    → d < 10
    → n * 10 + d < 2 ^ 32
    → atoi_from n (digit_char d ∷ cs) ≡ atoi_from (n * 10 + d) cs
unfolding atoi_from
atoi_digit n d cs hd h =
    let small : ltb d 10 ≡ true = ground arith in
    let lo : ltb (48 + d) 48 ≡ false = ground arith in
    let hi : ltb 57 (48 + d) ≡ false = ground arith in
    let value : (n * 10 + (48 + d) - 48) % 2 ^ 32 ≡ n * 10 + d = omega arith in
    rw (small, lo, hi, value) refl

atoi-digits :
    (k x : ℕ) (out : List ℕ)
    → x < power k
    → x < 2 ^ 32
    → atoi_from 0 (backwards (digits k 10 x) out) ≡ atoi_from x out
unfolding digits
atoi-digits zero x out h hx =
    ap (λ n. atoi_from n out) (let none_left : 0 ≡ x = omega arith in none_left)
atoi-digits (suc k) x out h hx = elim (Bool-cases (x / 10 == 0)) [
  | inl last ↦
      let zero_rest : x / 10 ≡ 0 = ground arith in
      rw last (
        atoi_digit 0 (x % 10) out (omega arith) (omega arith)
        ∙ ap (λ n. atoi_from n out) (omega arith))
  | inr more ↦ rw more (
      atoi-digits k (x / 10) (digit_char (x % 10) ∷ out) (omega arith) (omega arith)
      ∙ atoi_digit (x / 10) (x % 10) out (omega arith) (omega arith)
      ∙ ap (λ n. atoi_from n out) (omega arith))
]

digits-length : (rounds k x : ℕ) → x < power (suc k) → length (digits rounds 10 x) ≤ suc k
unfolding digits
digits-length zero k x h = omega arith
digits-length (suc rounds) zero x h =
    let done : (x / 10 == 0) ≡ true = ground arith in rw done (omega arith)
digits-length (suc rounds) (suc k) x h = elim (Bool-cases (x / 10 == 0)) [
  | inl last ↦ rw last (omega arith)
  | inr more ↦ let rest = digits-length rounds k (x / 10) (omega arith) in rw more (omega arith)
]

backwards-append :
    (xs : List ℕ) (c : ℕ) (out : List ℕ) → backwards (xs ++ (c ∷ [])) out ≡ c ∷ backwards xs out
backwards-append [] c out = refl
backwards-append (x ∷ xs) c out = backwards-append xs c (x ∷ out)

length-backwards : (xs out : List ℕ) → length (backwards xs out) ≡ length xs + length out
length-backwards [] out = omega arith
length-backwards (x ∷ xs) out = length-backwards xs (x ∷ out) ∙ omega arith

-- Printed in base 10.
decimal : ℕ → List ℕ
unfolding digits
decimal x = backwards (digits 32 10 x) []

atoi-decimal : (x : ℕ) → x < 2 ^ 32 → atoi (decimal x) ≡ x
unfolding atoi decimal atoi_from
atoi-decimal x h = atoi-digits 32 x [] (omega arith) h

decimal-length : (x : ℕ) → x < 2 ^ 32 → length (decimal x) ≤ 10
unfolding decimal
decimal-length x h =
    let few = digits-length 32 9 x (omega arith) in
    let same = length-backwards (digits 32 10 x) [] in omega arith

minus : (cs : List ℕ) → atoi (45 ∷ cs) ≡ 0
unfolding atoi atoi_from
minus cs = refl

-- What `printint` prints in base 10 fits into its buffer of 16 bytes. `atoi` of what it prints is the number
-- again if it is not negative or printed as unsigned; for a negative number it is the absolute value, after
-- the `-`, which `atoi` does not read.
pub atoi-printint :
    (xx : ℕ) (sgn : Bool)
    → xx < 2 ^ 32
    → (length (printint xx 10 sgn) < 16)
      × ((negative xx sgn ≡ false) × (atoi (printint xx 10 sgn) ≡ xx)
          ⊎ (negative xx sgn ≡ true)
            × ((rest : List ℕ) × (printint xx 10 sgn ≡ 45 ∷ rest)
                × (atoi rest ≡ 2 ^ 32 - xx)
                × (atoi (printint xx 10 sgn) ≡ 0)))
unfolding printint decimal
atoi-printint xx sgn h = elim (Bool-cases (negative xx sgn)) [
  | inl neg ↦
      let half : 2 ^ 31 ≤ xx = ground arith in
      let abs : (2 ^ 32 - xx) % 2 ^ 32 ≡ 2 ^ 32 - xx = omega arith in
      let short = decimal-length (2 ^ 32 - xx) (omega arith) in
      let printed : printint xx 10 sgn ≡ 45 ∷ decimal (2 ^ 32 - xx) =
        rw (neg, abs) (backwards-append (digits 32 10 (2 ^ 32 - xx)) 45 []) in
      rw printed (
        omega arith,
        inr (
          neg,
          (
            decimal (2 ^ 32 - xx),
            refl,
            atoi-decimal (2 ^ 32 - xx) (omega arith),
            minus (decimal (2 ^ 32 - xx)),
          ),
        ),
      )
  | inr pos ↦
      let short = decimal-length xx h in
      let printed : printint xx 10 sgn ≡ decimal xx = rw pos refl in
      rw printed (omega arith, inl (pos, atoi-decimal xx h))
]
