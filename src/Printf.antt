-- ===== src/Printf.antt =====
-- project4/printf.c: `printint` and `printf`, and `atoi` of project4/ulib.c. An int is its 32 bits. What is
-- written by `putc` is the list of its characters. The arguments on the stack are a function of the index,
-- and what string is at an address is a parameter; `none` is the null pointer.
pub mod Numbers
pub mod Text
pub mod Tests
use operating_systems_cs.Prelude.{
  ℕ, zero, suc, ◌+◌, ◌-◌, ◌*◌, ◌/◌, ◌%◌, ◌^◌, Bool, true, false, not, ◌&&◌, ◌||◌, List, [], ◌∷◌,
  ◌++◌, ltb, ◌==◌, if◌then◌else◌, Option, none, some,
}

-- `digits[d]`.
abbrev pub digit_char : ℕ → ℕ
digit_char d = if ltb d 10 then 48 + d else 55 + d

-- The loop of `printint` on `x`, with a bound on its rounds: the characters in `buf`.
pub digits : ℕ → ℕ → ℕ → List ℕ
digits zero base x = []
digits (suc rounds) base x =
    let rest = digits rounds base (x / base) in
    digit_char (x % base) ∷ (if x / base == 0 then [] else rest)

-- The last loop of `printint`: `buf` backwards.
abbrev pub backwards : List ℕ → List ℕ → List ℕ
backwards [] out = out
backwards (c ∷ cs) out = backwards cs (c ∷ out)

abbrev pub negative : ℕ → Bool → Bool
negative xx sgn = sgn && not (ltb xx (2 ^ 31))

-- `printint`, with 32 rounds, for as many bits.
pub printint : ℕ → ℕ → Bool → List ℕ
unfolding digits
printint xx base sgn =
    if negative xx sgn
    then backwards (digits 32 base ((2 ^ 32 - xx) % 2 ^ 32) ++ (45 ∷ [])) []
    else backwards (digits 32 base xx) []

abbrev pub is_digit : ℕ → Bool
is_digit c = not (ltb c 48) && not (ltb 57 c)

-- The loop of `atoi` from `n` on.
pub atoi_from : ℕ → List ℕ → ℕ
atoi_from n [] = n
atoi_from n (c ∷ cs) =
    let rest = atoi_from ((n * 10 + c - 48) % 2 ^ 32) cs in if is_digit c then rest else n

pub atoi : List ℕ → ℕ
unfolding atoi_from
atoi s = atoi_from 0 s

module _ (string : ℕ → Option (List ℕ)) (arg : ℕ → ℕ) where
  -- What is printed for `%s`.
  abbrev pub text_of : Option (List ℕ) → List ℕ
  text_of none = 40 ∷ 110 ∷ 117 ∷ 108 ∷ 108 ∷ 41 ∷ []
  text_of (some s) = s

  -- What is printed for the character after `%`, and how many arguments it takes.
  abbrev pub directive : ℕ → ℕ → List ℕ × ℕ
  directive c ap =
      if c == 100
      then (printint (arg ap) 10 true, 1)
      else if c == 120 || c == 112
      then (printint (arg ap) 16 false, 1)
      else if c == 115
      then (text_of (string (arg ap)), 1)
      else if c == 99
      then (arg ap % 256 ∷ [], 1)
      else if c == 37
      then (c ∷ [], 0)
      else (37 ∷ c ∷ [], 0)

  -- The loop of `printf`; `state` is whether the last character was a `%` that starts a directive.
  pub printf : Bool → ℕ → List ℕ → List ℕ
  unfolding printint
  printf state ap [] = []
  printf false ap (c ∷ cs) =
      let after = printf true ap cs in
      let rest = printf false ap cs in if c == 37 then after else c ∷ rest
  printf true ap (c ∷ cs) = let (out, used) = directive c ap in out ++ printf false (ap + used) cs
