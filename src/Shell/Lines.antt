-- ===== src/Shell/Lines.antt =====
-- What the parts of a command line start and end with, and the loop over `&`.
use operating_systems_cs.Prelude.{
  ℕ, zero, suc, ◌+◌, ◌≤◌, ◌<◌, ◌≡◌, refl, ◌∙◌, true, false, arith, List, [], ◌∷◌, length,
}
use operating_systems_cs.Shell.Monad.{done, ◌>>=◌, ◌>>◌}
use operating_systems_cs.Shell.Grammar.{
  Redir, from, to, append_to, Arg, Line, line, seq, Pipeline, single, piped, Simple, block, command,
  Tok, sym_tok, redir_toks, arg_toks, amp_toks, line_toks, pipe_toks, simple_toks, text, backs,
  AllArg, IsLine, IsPipeline, IsSimple, AllTok,
}
use operating_systems_cs.Shell.Lexer.{gettoken-text, peek-text}
use operating_systems_cs.Shell.{Cmd, back, starts, back_loop}
use operating_systems_cs.Shell.Redirs.{word-starts, redirs-AllTok}
use operating_systems_cs.Shell.Args.{Ends, redirs-length, args-length, args-AllTok}

abbrev pub after_simple : List ℕ
after_simple = b'|' ∷ b')' ∷ b'&' ∷ b';' ∷ []

abbrev pub after_pipe : List ℕ
after_pipe = b')' ∷ b'&' ∷ b';' ∷ []

abbrev pub after_line : List ℕ
after_line = b')' ∷ []

-- What ends a line goes on with nothing.
pub line_end :
    (ts : List Tok)
    → Ends after_line ts
    → (starts (b'&' ∷ []) (text ts) ≡ false)
      × (starts (b';' ∷ []) (text ts) ≡ false)
      × Ends after_pipe ts
line_end [] e = (refl, refl, tt)
line_end (t ∷ ts) e = go (text (t ∷ ts)) e
  where
    go :
        (s : List ℕ)
        → starts after_line s ≡ true
        → (starts (b'&' ∷ []) s ≡ false)
          × (starts (b';' ∷ []) s ≡ false)
          × (starts after_pipe s ≡ true)
    go [] h = absurd (ground arith)
    go (c ∷ cs) h = (ground arith, ground arith, ground arith)

pub pipe_end :
    (ts : List Tok)
    → Ends after_pipe ts
    → (starts (b'|' ∷ []) (text ts) ≡ false) × Ends after_simple ts
pipe_end [] e = (refl, tt)
pipe_end (t ∷ ts) e = go (text (t ∷ ts)) e
  where
    go :
        (s : List ℕ)
        → starts after_pipe s ≡ true
        → (starts (b'|' ∷ []) s ≡ false) × (starts after_simple s ≡ true)
    go [] h = absurd (ground arith)
    go (c ∷ cs) h = (ground arith, ground arith)

pub simple_end : (ts : List Tok) → Ends after_simple ts → starts (b'(' ∷ []) (text ts) ≡ false
simple_end [] e = refl
simple_end (t ∷ ts) e = go (text (t ∷ ts)) e
  where
    go : (s : List ℕ) → starts after_simple s ≡ true → starts (b'(' ∷ []) s ≡ false
    go [] h = refl
    go (c ∷ cs) h = ground arith

-- A command that is no block does not start with a parenthesis.
pub command_start :
    (rs : List Redir) (args : List Arg) (rest : List Tok)
    → AllArg args
    → Ends after_simple rest
    → starts (b'(' ∷ []) (text (redir_toks rs (arg_toks args rest))) ≡ false
command_start [] [] rest v e = simple_end rest e
command_start [] (a ∷ args) rest (w, r, v) e =
    (word-starts a.text (redir_toks a.redirs (arg_toks args rest)) w).2
command_start (from w ∷ rs) args rest v e = refl
command_start (to w ∷ rs) args rest v e = refl
command_start (append_to w ∷ rs) args rest v e = refl

pub amps-AllTok : (k : ℕ) (rest : List Tok) → AllTok rest → AllTok (amp_toks k rest)
amps-AllTok zero rest v = v
amps-AllTok (suc k) rest v = (refl, amps-AllTok k rest v)

pub amps-length : (k : ℕ) (rest : List Tok) → k + length rest ≤ length (amp_toks k rest)
amps-length zero rest = omega arith
amps-length (suc k) rest = omega (arith, amps-length k rest)

mutual
  unfolding line_toks pipe_toks simple_toks IsLine IsPipeline IsSimple

  pub line-AllTok :
      (l : Line) (rest : List Tok) → IsLine l → AllTok rest → AllTok (line_toks l rest)
  line-AllTok (line p k) rest v vr = pipe-AllTok p (amp_toks k rest) v (amps-AllTok k rest vr)
  line-AllTok (seq p k l) rest (v, w) vr =
      pipe-AllTok p (amp_toks k (sym_tok b';' ∷ line_toks l rest)) v
        (amps-AllTok k (sym_tok b';' ∷ line_toks l rest) (refl, line-AllTok l rest w vr))

  pub pipe-AllTok :
      (p : Pipeline) (rest : List Tok) → IsPipeline p → AllTok rest → AllTok (pipe_toks p rest)
  pipe-AllTok (single s) rest v vr = simple-AllTok s rest v vr
  pipe-AllTok (piped s p) rest (v, w) vr =
      simple-AllTok s (sym_tok b'|' ∷ pipe_toks p rest) v (refl, pipe-AllTok p rest w vr)

  pub simple-AllTok :
      (s : Simple) (rest : List Tok) → IsSimple s → AllTok rest → AllTok (simple_toks s rest)
  simple-AllTok (block l rs) rest (v, w) vr =
      (refl, line-AllTok l (sym_tok b')' ∷ redir_toks rs rest) v (refl, redirs-AllTok rs rest w vr))
  simple-AllTok (command rs args) rest (v, w, few) vr =
      redirs-AllTok rs (arg_toks args rest) v (args-AllTok args rest w vr)

mutual
  unfolding line_toks pipe_toks simple_toks

  pub line-length : (l : Line) (rest : List Tok) → length rest ≤ length (line_toks l rest)
  line-length (line p k) rest = omega (arith, pipe-length p (amp_toks k rest), amps-length k rest)
  line-length (seq p k l) rest = omega (
    arith,
    pipe-length p (amp_toks k (sym_tok b';' ∷ line_toks l rest)),
    amps-length k (sym_tok b';' ∷ line_toks l rest),
    line-length l rest,
  )

  pub pipe-length : (p : Pipeline) (rest : List Tok) → length rest ≤ length (pipe_toks p rest)
  pipe-length (single s) rest = simple-length s rest
  pipe-length (piped s p) rest =
      omega (arith, simple-length s (sym_tok b'|' ∷ pipe_toks p rest), pipe-length p rest)

  pub simple-length : (s : Simple) (rest : List Tok) → length rest ≤ length (simple_toks s rest)
  simple-length (block l rs) rest =
      omega (arith, line-length l (sym_tok b')' ∷ redir_toks rs rest), redirs-length rs rest)
  simple-length (command rs args) rest =
      omega (arith, redirs-length rs (arg_toks args rest), args-length args rest)

back_step :
    (n : ℕ) (cmd : Cmd) (rest : List Tok)
    → AllTok rest
    → back_loop (suc n) cmd (text (sym_tok b'&' ∷ rest)) ≡ back_loop n (back cmd) (text rest)
unfolding back_loop
back_step n cmd rest v =
    rw
      (
        back_loop,
        ◌>>=◌,
        peek-text (b'&' ∷ []) (sym_tok b'&' ∷ rest) (refl, v),
        ◌>>◌,
        ◌>>=◌,
        gettoken-text (sym_tok b'&') rest refl v,
      )
      refl

pub back_lem :
    (n k : ℕ) (cmd : Cmd) (rest : List Tok)
    → k < n
    → AllTok rest
    → starts (b'&' ∷ []) (text rest) ≡ false
    → back_loop n cmd (text (amp_toks k rest)) ≡ done (backs k cmd) (text rest)
back_lem zero k cmd rest h v e = absurd (omega arith)
back_lem (suc n) zero cmd rest h v e =
    unfold back_loop in rw (back_loop, ◌>>=◌, peek-text (b'&' ∷ []) rest v, e) refl
back_lem (suc n) (suc k) cmd rest h v e =
    back_step n cmd (amp_toks k rest) (amps-AllTok k rest v)
    ∙ back_lem n k (back cmd) rest (omega arith) v e
