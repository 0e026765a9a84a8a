-- ===== src/Console/Reads.antt =====
-- What `consoleread` returns.
use mathlib.Core.Path.{subst}
use operating_systems_cs.Prelude.{
  ℕ, zero, suc, ◌+◌, ◌%◌, ◌^◌, ◌<◌, ◌≡◌, ◌≢◌, ◌⊎◌, refl, sym, inl, inr, Bool, true, false, not,
  ◌&&◌, List, [], ◌∷◌, length, arith, ◌==◌, if◌then◌else◌, Bool-cases, eq_of_eqb,
}
use operating_systems_cs.Console.{
  input_buf, Input, ctrl_d, newline, ReadEnd, done, waits, failed, after, read_line, consoleread,
}
use operating_systems_cs.Console.Lines.{IsValid}

abbrev next : Input → Input
next s = record s { r = (s.r + 1) % 2 ^ 32 }

-- The bytes `cs` are the next ones of the complete lines, at most `n`, none is a control-D, and they end
-- where reading stops: after `n` bytes, after a newline, or before a control-D.
abbrev pub Returns : ℕ → Input → List ℕ → Type 0
Returns zero s cs = cs ≡ []
Returns (suc n) s [] = (s.r ≢ s.w) × (s.bytes (s.r % input_buf) ≡ ctrl_d)
Returns (suc n) s (c ∷ cs) =
    (c ≡ s.bytes (s.r % input_buf))
    × (s.r ≢ s.w)
    × (c ≢ ctrl_d)
    × (((c ≡ newline) × (cs ≡ [])) ⊎ ((c ≢ newline) × Returns n (next s) cs))

-- The bytes `cs` are the next ones, fewer than `n`, and none is a newline or a control-D.
abbrev pub Begins : ℕ → Input → List ℕ → Type 0
Begins n s [] = 0 < n
Begins zero s (c ∷ cs) = ⊥
Begins (suc n) s (c ∷ cs) =
    (c ≡ s.bytes (s.r % input_buf))
    × (s.r ≢ s.w)
    × (c ≢ ctrl_d)
    × (c ≢ newline)
    × Begins n (next s) cs

-- A control-D that comes first is consumed.
abbrev pub eof_first : ℕ → Input → ℕ
eof_first zero s = 0
eof_first (suc n) s = if not (s.r == s.w) && s.bytes (s.r % input_buf) == ctrl_d then 1 else 0

abbrev pub eaten : Bool → ℕ → Input → ℕ
eaten true n s = 0
eaten false n s = eof_first n s

-- Only the reading index has moved, by `k`.
pub record Advanced (k : ℕ) (s : Input) (t : Input) : Type 0 where
  pub valid : IsValid t
  pub moved : t.r ≡ (s.r + k) % 2 ^ 32
  pub same_w : t.w ≡ s.w
  pub same_e : t.e ≡ s.e
  pub same_bytes : t.bytes ≡ s.bytes

abbrev pub Good : Bool → ℕ → Bool → Input → ReadEnd → Type 0
Good killed n started s (done bs t) = Returns n s bs × Advanced (length bs + eaten started n s) s t
Good killed n started s (waits bs t) =
    Begins n s bs × Advanced (length bs) s t × (t.r ≡ t.w) × (killed ≡ false)
Good killed n started s (failed t) = ((k : ℕ) × Advanced k s t) × (t.r ≡ t.w) × (killed ≡ true)

refl-Advanced : (s : Input) → IsValid s → Advanced 0 s s
refl-Advanced s v = record {
  valid = v;
  moved = let h = v.r_lt in omega arith;
  same_w = refl;
  same_e = refl;
  same_bytes = refl;
}

next-IsValid : (s : Input) → IsValid s → s.r ≢ s.w → IsValid (next s)
next-IsValid s v ne = record {
  r_lt = omega arith;
  w_lt = v.w_lt;
  e_lt = v.e_lt;
  ordered = ground arith;
  fits = ground arith;
}

next-Advanced : (k : ℕ) (s t : Input) → Advanced k (next s) t → Advanced (suc k) s t
next-Advanced k s t a = record {
  valid = a.valid;
  moved = let h = a.moved in omega arith;
  same_w = a.same_w;
  same_e = a.same_e;
  same_bytes = a.same_bytes;
}

none_eaten : (n : ℕ) (s : Input) (started : Bool) → eof_first n s ≡ 0 → eaten started n s ≡ 0
none_eaten n s true h = refl
none_eaten n s false h = h

-- A byte that is read before the rest.
module _ (killed : Bool) (n : ℕ) (started : Bool) (s : Input) (ne : s.r ≢ s.w)
    (nd : s.bytes (s.r % input_buf) ≢ ctrl_d) where
  no_eof : eaten started (suc n) s ≡ 0
  no_eof =
      let off : (s.bytes (s.r % input_buf) == ctrl_d) ≡ false = ground arith in
      let on : (s.r == s.w) ≡ false = ground arith in
      none_eaten (suc n) s started (rw (on, off) refl)

  after-Good :
      (x : ReadEnd)
      → s.bytes (s.r % input_buf) ≢ newline
      → Good killed n true (next s) x
      → Good killed (suc n) started s (after (s.bytes (s.r % input_buf)) x)
  after-Good (done bs t) nn (rs, a) = (
    (refl, ne, nd, inr (nn, rs)),
    subst (λ k. Advanced k s t) (let z = no_eof in omega arith)
        (next-Advanced (length bs + 0) s t a),
  )
  after-Good (waits bs t) nn (rs, a, e, k) =
      ((refl, ne, nd, nn, rs), next-Advanced (length bs) s t a, e, k)
  after-Good (failed t) nn (a, e, k) = ((suc a.0, next-Advanced a.0 s t a.1), e, k)

  last-Good :
      IsValid (next s)
      → s.bytes (s.r % input_buf) ≡ newline
      → Good killed (suc n) started s (done (s.bytes (s.r % input_buf) ∷ []) (next s))
  last-Good v nl = (
    (refl, ne, nd, inl (nl, refl)),
    subst (λ k. Advanced (1 + k) s (next s)) (sym no_eof)
        (next-Advanced 0 s (next s) (refl-Advanced (next s) v)),
  )

empty-Good :
    (killed : Bool) (n : ℕ) (started : Bool) (s : Input)
    → IsValid s
    → s.r ≡ s.w
    → Good killed (suc n) started s (if killed then failed s else waits [] s)
empty-Good true n started s v e = ((0, refl-Advanced s v), e, refl)
empty-Good false n started s v e = (omega arith, refl-Advanced s v, e, refl)

eof-Good :
    (killed : Bool) (n : ℕ) (started : Bool) (s : Input)
    → IsValid s
    → s.r ≢ s.w
    → s.bytes (s.r % input_buf) ≡ ctrl_d
    → Good killed (suc n) started s (done [] (if started then s else next s))
eof-Good killed n true s v ne eof = ((ne, eof), refl-Advanced s v)
eof-Good killed n false s v ne eof =
    let on : (s.r == s.w) ≡ false = ground arith in
    (
      (ne, eof),
      rw (on, eof) (next-Advanced 0 s (next s) (refl-Advanced (next s) (next-IsValid s v ne))),
    )

zero-Good : (killed started : Bool) (s : Input) → IsValid s → Good killed 0 started s (done [] s)
zero-Good killed true s v = (refl, refl-Advanced s v)
zero-Good killed false s v = (refl, refl-Advanced s v)

read_line-Good :
    (killed : Bool) (n : ℕ) (started : Bool) (s : Input)
    → IsValid s
    → Good killed n started s (read_line killed n started s)
unfolding read_line
read_line-Good killed zero started s v = zero-Good killed started s v
read_line-Good killed (suc n) started s v = elim (Bool-cases (s.r == s.w)) [
  | inl empty ↦ rw empty (empty-Good killed n started s v (eq_of_eqb s.r s.w empty))
  | inr more ↦
      let ne : s.r ≢ s.w = (λ e. ground arith) in
      let v' = next-IsValid s v ne in
      elim (Bool-cases (s.bytes (s.r % input_buf) == ctrl_d)) [
        | inl eof ↦ rw (more, eof) (eof-Good killed n started s v ne (eq_of_eqb _ _ eof))
        | inr text ↦
            let nd : s.bytes (s.r % input_buf) ≢ ctrl_d = (λ e. ground arith) in
            elim (Bool-cases (s.bytes (s.r % input_buf) == newline)) [
              | inl last ↦
                  rw (more, text, last) (last-Good killed n started s ne nd v' (eq_of_eqb _ _ last))
              | inr inner ↦
                  rw (more, text, inner)
                    (after-Good killed n started s ne nd (read_line killed n true (next s))
                      (λ e. ground arith) (read_line-Good killed n true (next s) v'))
            ]
      ]
]

-- `consoleread` of `n` bytes from a valid input buffer keeps it valid and moves only the reading index.
-- What it has read when it returns are the next bytes of the complete lines, up to `n` bytes, to the first
-- newline or to the byte before the first control-D; the index has moved behind them, and behind a control-D
-- that came first. It waits when all complete lines are read, and what it has read then are all of
-- their bytes; in a killed process it fails there.
pub consoleread_lem :
    (killed : Bool) (n : ℕ) (s : Input) → IsValid s → Good killed n false s (consoleread killed n s)
unfolding consoleread
consoleread_lem killed n s v = read_line-Good killed n false s v
