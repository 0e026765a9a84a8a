-- ===== src/Shell/Ends.antt =====
-- The parser ends: its bounds are never met, whatever the line.
use operating_systems_cs.Prelude.{
  ℕ, zero, suc, ◌+◌, ◌*◌, ◌≤◌, ◌<◌, ◌≡◌, refl, ◌⊎◌, inl, inr, false, Bool-cases, arith, leb, List,
  [], ◌∷◌, length, ◌==◌,
}
use operating_systems_cs.Shell.Monad.{Panic, Parsed, out_of_fuel, panics, done, ◌>>◌}
use operating_systems_cs.Shell.{
  Cmd, exec, back, skip_white, peek, redirected, parseredirs, add_arg, exec_loop, back_loop,
  parseline, parsepipe, parseblock, parseexec, end_of_line, parsecmd,
}
use operating_systems_cs.Shell.Progress.{
  Within, bind-Within, peek-Within, gettoken-Within, any_token-Within, Within-le,
}

redirs-Within :
    (n : ℕ) (cmd : Cmd) (s : List ℕ) → length s < n → Within (length s) (parseredirs n cmd s)
unfolding parseredirs
redirs-Within zero cmd s h = absurd (omega arith)
redirs-Within (suc n) cmd s h =
    peek-Within (length s) (b'<' ∷ b'>' ∷ []) s _ (λ r le. le)
      λ c cs nw le. gettoken-Within (length s) c cs _ nw λ t r lt.
        any_token-Within (length s) r _ λ f q le' some_less. elim (Bool-cases (f.0 == b'a')) [
          | inl e ↦ rw e (
              Within-le (length q) (length s) _ (omega arith)
                (redirs-Within n (redirected t.0 f.1 cmd) q (omega arith)))
          | inr e ↦ rw e tt
        ]

back-Within :
    (n : ℕ) (cmd : Cmd) (s : List ℕ) → length s < n → Within (length s) (back_loop n cmd s)
unfolding back_loop
back-Within zero cmd s h = absurd (omega arith)
back-Within (suc n) cmd s h =
    peek-Within (length s) (b'&' ∷ []) s _ (λ r le. le)
      λ c cs nw le. gettoken-Within (length s) c cs _ nw λ t r lt.
        Within-le (length r) (length s) _ (omega arith) (back-Within n (back cmd) r (omega arith))

token_left :
    (t : ℕ × List ℕ) (q r s : List ℕ)
    → (t.0 == 0) ≡ false
    → length r ≤ length s
    → (t.0 ≡ 0) ⊎ (length q < length r)
    → length q < length s
token_left t q r s e le (inl z) = absurd (ground arith)
token_left t q r s e le (inr less) = omega arith

exec-Within :
    (n argc : ℕ) (ret : Cmd) (s : List ℕ)
    → length s < n
    → Within (length s) (exec_loop n argc ret s)
unfolding exec_loop
exec-Within zero argc ret s h = absurd (omega arith)
exec-Within (suc n) argc ret s h =
    peek-Within (length s) (b'|' ∷ b')' ∷ b'&' ∷ b';' ∷ []) s _
      (λ r le. any_token-Within (length s) r _ λ t q le' less. elim (Bool-cases (t.0 == 0)) [
        | inl e ↦ rw e (omega arith)
        | inr e ↦ elim (Bool-cases (t.0 == b'a')) [
          | inr f ↦ rw (e, f) tt
          | inl f ↦ elim (Bool-cases (leb 10 (argc + 1))) [
            | inl m ↦ rw (e, f, m) tt
            | inr m ↦
                let shorter : length q < length s = token_left t q r s e le less in
                rw (e, f, m)
                  (bind-Within (length q) (length s) (parseredirs n (add_arg t.1 ret))
                    (exec_loop n (argc + 1)) q (redirs-Within n (add_arg t.1 ret) q (omega arith))
                    λ c u lu.
                      Within-le (length u) (length s) _ (omega arith)
                        (exec-Within n (argc + 1) c u (omega arith)))
          ]
        ]
      ])
      λ c cs nw le. le

mutual
  unfolding parseline parsepipe parseexec parseblock

  line-Within : (n : ℕ) (s : List ℕ) → 4 * length s + 3 < n → Within (length s) (parseline n s)
  line-Within zero s h = absurd (omega arith)
  line-Within (suc n) s h =
      bind-Within (length s) (length s) (parsepipe n) _ s (pipe-Within n s (omega arith)) λ p r le.
        bind-Within (length r) (length s) (back_loop n p) _ r (back-Within n p r (omega arith))
          λ c q lq.
            peek-Within (length s) (b';' ∷ []) q _ (λ u lu. omega arith)
              λ d ds nw ld. gettoken-Within (length s) d ds _ nw λ t u lt.
                bind-Within (length u) (length s) (parseline n) _ u (line-Within n u (omega arith))
                  λ b v lv. omega arith

  pipe-Within : (n : ℕ) (s : List ℕ) → 4 * length s + 2 < n → Within (length s) (parsepipe n s)
  pipe-Within zero s h = absurd (omega arith)
  pipe-Within (suc n) s h =
      bind-Within (length s) (length s) (parseexec n) _ s (simple-Within n s (omega arith))
        λ c q lq.
          peek-Within (length s) (b'|' ∷ []) q _ (λ u lu. omega arith)
            λ d ds nw ld. gettoken-Within (length s) d ds _ nw λ t u lt.
              bind-Within (length u) (length s) (parsepipe n) _ u (pipe-Within n u (omega arith))
                λ b v lv. omega arith

  block-Within : (n : ℕ) (s : List ℕ) → 4 * length s < n → Within (length s) (parseblock n s)
  block-Within zero s h = absurd (omega arith)
  block-Within (suc n) s h =
      peek-Within (length s) (b'(' ∷ []) s _ (λ u lu. tt)
        λ d ds nw ld. gettoken-Within (length s) d ds _ nw λ t u lt.
          bind-Within (length u) (length s) (parseline n) _ u (line-Within n u (omega arith))
            λ c v lv.
              peek-Within (length s) (b')' ∷ []) v _ (λ w lw. tt)
                λ e es nw' le. gettoken-Within (length s) e es _ nw' λ t' w lw.
                  Within-le (length w) (length s) _ (omega arith)
                    (redirs-Within n c w (omega arith))

  simple-Within : (n : ℕ) (s : List ℕ) → 4 * length s + 1 < n → Within (length s) (parseexec n s)
  simple-Within zero s h = absurd (omega arith)
  simple-Within (suc n) s h =
      peek-Within (length s) (b'(' ∷ []) s _
        (λ r le.
          bind-Within (length r) (length s) (parseredirs n (exec [])) _ r
            (redirs-Within n (exec []) r (omega arith))
            λ c q lq.
              Within-le (length q) (length s) _ (omega arith) (exec-Within n 0 c q (omega arith)))
        λ d ds nw ld.
          Within-le (length (d ∷ ds)) (length s) _ ld (block-Within n (d ∷ ds) (omega arith))

abbrev pub Ended : Parsed Cmd → Type 0
Ended x = ((c : Cmd) × (x ≡ done c [])) ⊎ ((p : Panic) × (x ≡ panics p))

end-Ended : (c : Cmd) (s : List ℕ) → Ended (end_of_line c s)
end-Ended c [] = inl (c, refl)
end-Ended c (d ∷ ds) = inr (Panic.leftovers, refl)

-- Whatever the line, `parsecmd` ends with a tree for the whole line or with one of the panics.
pub parsecmd-Ended : (s : List ℕ) → Ended (parsecmd s)
unfolding parsecmd peek
parsecmd-Ended s =
    go (parseline (4 * length s + 4) s) (line-Within (4 * length s + 4) s (omega arith))
  where
    go :
        (x : Parsed Cmd)
        → Within (length s) x
        → Ended (elim x [
          | out_of_fuel ↦ out_of_fuel
          | panics p ↦ panics p
          | done c r ↦ ◌>>◌ (peek []) (end_of_line c) r
        ])
    go out_of_fuel h = absurd h
    go (panics p) h = inr (p, refl)
    go (done c r) h = end-Ended c (skip_white r)
