-- ===== src/Console/Lines.antt =====
-- Typing never changes a line that is complete.
use operating_systems_cs.Prelude.{
  ℕ, zero, suc, ◌+◌, ◌%◌, ◌^◌, ◌≤◌, ◌<◌, ◌≡◌, refl, ◌∙◌, inl, inr, false, not, ◌&&◌, ◌||◌, List, [],
  ◌∷◌, arith, ltb, ◌==◌, Bool-cases, update_ne,
}
use operating_systems_cs.Console.{
  input_buf, Input, newline, back, distance, kill_line, backspace, normal, accept, typed,
  consoleintr,
}

-- Reading is not past writing, nor writing past editing, and the buffer holds what is between them.
pub record IsValid (s : Input) : Type 0 where
  pub r_lt : s.r < 2 ^ 32
  pub w_lt : s.w < 2 ^ 32
  pub e_lt : s.e < 2 ^ 32
  pub ordered : distance s.r s.w ≤ distance s.r s.e
  pub fits : distance s.r s.e ≤ input_buf

-- The `k`-th byte that may be read.
abbrev pub byte_at : Input → ℕ → ℕ
byte_at s k = s.bytes ((s.r + k) % 2 ^ 32 % input_buf)

-- The state `t` has the complete lines of `s`, and perhaps more.
pub record Extends (s : Input) (t : Input) : Type 0 where
  pub valid : IsValid t
  pub same_r : t.r ≡ s.r
  pub longer : distance s.r s.w ≤ distance t.r t.w
  pub kept : (k : ℕ) → k < distance s.r s.w → byte_at t k ≡ byte_at s k

refl-Extends : (s : Input) → IsValid s → Extends s s
refl-Extends s v = record { valid = v; same_r = refl; longer = omega arith; kept = λ k lt. refl }

back-IsValid : (s : Input) → IsValid s → (s.e == s.w) ≡ false → IsValid (record s { e = back s.e })
back-IsValid s v ne = record {
  r_lt = v.r_lt;
  w_lt = v.w_lt;
  e_lt = omega arith;
  ordered = ground arith;
  fits = ground arith;
}

back-Extends :
    (s : Input) → IsValid s → (s.e == s.w) ≡ false → Extends s (record s { e = back s.e })
back-Extends s v ne = record {
  valid = back-IsValid s v ne;
  same_r = refl;
  longer = omega arith;
  kept = λ k lt. refl;
}

trans-Extends : (s t u : Input) → Extends s t → Extends t u → Extends s u
trans-Extends s t u a b = record {
  valid = b.valid;
  same_r = b.same_r ∙ a.same_r;
  longer = omega (arith, a.longer, b.longer);
  kept = λ k lt. b.kept k (omega (arith, a.longer)) ∙ a.kept k lt;
}

kill_line-Extends : (n : ℕ) (s : Input) → IsValid s → Extends s (kill_line n s)
unfolding kill_line
kill_line-Extends zero s v = refl-Extends s v
kill_line-Extends (suc n) s v =
    elim (Bool-cases ((s.e == s.w) || (s.bytes (back s.e % input_buf) == newline))) [
      | inl stop ↦ rw stop (refl-Extends s v)
      | inr more ↦
          let ne : (s.e == s.w) ≡ false = ground arith in
          let t = record s { e = back s.e } in
          rw more (
            trans-Extends s t (kill_line n t) (back-Extends s v ne)
              (kill_line-Extends n t (back-IsValid s v ne)))
    ]

accept-Extends : (c : ℕ) (s : Input) → IsValid s → Extends s (accept c s).0
unfolding accept
accept-Extends c s v = elim (Bool-cases (not (c == 0) && ltb (distance s.r s.e) input_buf)) [
  | inr refused ↦ rw refused (refl-Extends s v)
  | inl room ↦
      let short : distance s.r s.e < input_buf = ground arith in
      rw room (record {
        valid = record {
          r_lt = v.r_lt;
          w_lt = ground arith;
          e_lt = omega arith;
          ordered = ground arith;
          fits = omega arith;
        };
        same_r = refl;
        longer = ground arith;
        kept = λ k lt.
            update_ne s.bytes (s.e % input_buf) ((s.r + k) % 2 ^ 32 % input_buf) (normal c % 256)
              (λ q. omega arith);
      })
]

-- A typed character keeps the input buffer valid: it moves no reader and drops or changes no byte of a
-- complete line.
pub typed_lem : (c : ℕ) (s : Input) → IsValid s → Extends s (typed c s).0
unfolding typed backspace
typed_lem c s v = elim (Bool-cases (c == 16)) [
  | inl listing ↦ rw listing (refl-Extends s v)
  | inr not_listing ↦ elim (Bool-cases (c == 21)) [
    | inl kill ↦ rw (not_listing, kill) (kill_line-Extends (distance s.w s.e) s v)
    | inr no_kill ↦ elim (Bool-cases ((c == 8) || (c == 127))) [
      | inl rub ↦ elim (Bool-cases (s.e == s.w)) [
        | inl at_start ↦ rw (not_listing, no_kill, rub, at_start) (refl-Extends s v)
        | inr later ↦ rw (not_listing, no_kill, rub, later) (back-Extends s v later)
      ]
      | inr plain ↦ rw (not_listing, no_kill, plain) (accept-Extends c s v)
    ]
  ]
]

-- Whatever is typed, `consoleintr` keeps the input buffer valid and every byte of the complete lines.
pub consoleintr-Extends : (cs : List ℕ) (s : Input) → IsValid s → Extends s (consoleintr cs s).0
unfolding consoleintr
consoleintr-Extends [] s v = refl-Extends s v
consoleintr-Extends (c ∷ cs) s v =
    let one = typed_lem c s v in
    trans-Extends s (typed c s).0 (consoleintr cs (typed c s).0).0 one
      (consoleintr-Extends cs (typed c s).0 one.valid)
