-- ===== src/Shell/Trees.antt =====
-- The parser reads every command line of the grammar as the tree that it means.
use operating_systems_cs.Prelude.{
  ℕ, zero, suc, ◌+◌, ◌*◌, ◌≤◌, ◌<◌, ◌≡◌, refl, ap, ◌∙◌, false, arith, List, [], ◌∷◌, length,
  length-append,
}
use operating_systems_cs.Shell.Monad.{done, ◌>>=◌, ◌>>◌}
use operating_systems_cs.Shell.Grammar.{
  Line, line, seq, Pipeline, single, piped, Simple, block, command, Tok, sym_tok, redir_toks,
  arg_toks, amp_toks, line_toks, pipe_toks, simple_toks, chars, text, with_redirs, backs, line_cmd,
  pipe_cmd, simple_cmd, IsLine, IsPipeline, IsSimple, AllTok,
}
use operating_systems_cs.Shell.Lexer.{gettoken-text, peek-text}
use operating_systems_cs.Shell.{
  Cmd, exec, pipe, both, starts, parseredirs, exec_loop, back_loop, parseline, parsepipe,
  parseblock, parseexec, parsecmd,
}
use operating_systems_cs.Shell.Redirs.{redirs-AllTok, redirs_lem}
use operating_systems_cs.Shell.Args.{
  Ends, redirs-length, args-AllTok, args-redir, args_lem, with_args_lem, Ends-redir,
}
use operating_systems_cs.Shell.Lines.{
  after_simple, after_pipe, after_line, line_end, pipe_end, command_start, amps-AllTok, amps-length,
  back_lem, line-AllTok, pipe-AllTok, line-length, pipe-length, simple-length,
}

text-length : (ts : List Tok) → length ts ≤ length (text ts)
text-length [] = omega arith
text-length (t ∷ ts) = omega (arith, length-append (chars t) (b' ' ∷ text ts), text-length ts)

line_step :
    (n : ℕ) (ts us rest : List Tok) (p c : Cmd)
    → parsepipe n (text ts) ≡ done p (text us)
    → back_loop n p (text us) ≡ done c (text rest)
    → AllTok rest
    → starts (b';' ∷ []) (text rest) ≡ false
    → parseline (suc n) (text ts) ≡ done c (text rest)
unfolding parseline
line_step n ts us rest p c e f v g =
    rw (parseline, ◌>>=◌, e, f, peek-text (b';' ∷ []) rest v, g) refl

seq_step :
    (n : ℕ) (ts us next rest : List Tok) (p c d : Cmd)
    → parsepipe n (text ts) ≡ done p (text us)
    → back_loop n p (text us) ≡ done c (text (sym_tok b';' ∷ next))
    → AllTok next
    → parseline n (text next) ≡ done d (text rest)
    → parseline (suc n) (text ts) ≡ done (both c d) (text rest)
unfolding parseline
seq_step n ts us next rest p c d e f v g =
    rw
      (
        parseline,
        ◌>>=◌,
        e,
        f,
        peek-text (b';' ∷ []) (sym_tok b';' ∷ next) (refl, v),
        ◌>>◌,
        ◌>>=◌,
        gettoken-text (sym_tok b';') next refl v,
        g,
      )
      refl

pipe_step :
    (n : ℕ) (ts rest : List Tok) (c : Cmd)
    → parseexec n (text ts) ≡ done c (text rest)
    → AllTok rest
    → starts (b'|' ∷ []) (text rest) ≡ false
    → parsepipe (suc n) (text ts) ≡ done c (text rest)
unfolding parsepipe
pipe_step n ts rest c e v g = rw (parsepipe, ◌>>=◌, e, peek-text (b'|' ∷ []) rest v, g) refl

piped_step :
    (n : ℕ) (ts next rest : List Tok) (c d : Cmd)
    → parseexec n (text ts) ≡ done c (text (sym_tok b'|' ∷ next))
    → AllTok next
    → parsepipe n (text next) ≡ done d (text rest)
    → parsepipe (suc n) (text ts) ≡ done (pipe c d) (text rest)
unfolding parsepipe
piped_step n ts next rest c d e v g =
    rw
      (
        parsepipe,
        ◌>>=◌,
        e,
        peek-text (b'|' ∷ []) (sym_tok b'|' ∷ next) (refl, v),
        ◌>>◌,
        ◌>>=◌,
        gettoken-text (sym_tok b'|') next refl v,
        g,
      )
      refl

block_step :
    (n : ℕ) (ts us rest : List Tok) (c d : Cmd)
    → AllTok ts
    → parseline n (text ts) ≡ done c (text (sym_tok b')' ∷ us))
    → AllTok us
    → parseredirs n c (text us) ≡ done d (text rest)
    → parseexec (suc (suc n)) (text (sym_tok b'(' ∷ ts)) ≡ done d (text rest)
unfolding parseexec parseblock
block_step n ts us rest c d v e w f =
    rw
      (
        parseexec,
        ◌>>=◌,
        peek-text (b'(' ∷ []) (sym_tok b'(' ∷ ts) (refl, v),
        parseblock,
        ◌>>=◌,
        peek-text (b'(' ∷ []) (sym_tok b'(' ∷ ts) (refl, v),
        ◌>>◌,
        ◌>>=◌,
        gettoken-text (sym_tok b'(') ts refl v,
        e,
        peek-text (b')' ∷ []) (sym_tok b')' ∷ us) (refl, w),
        gettoken-text (sym_tok b')') us refl w,
        f,
      )
      refl

command_step :
    (n : ℕ) (ts us rest : List Tok) (c d : Cmd)
    → AllTok ts
    → starts (b'(' ∷ []) (text ts) ≡ false
    → parseredirs n (exec []) (text ts) ≡ done c (text us)
    → exec_loop n 0 c (text us) ≡ done d (text rest)
    → parseexec (suc n) (text ts) ≡ done d (text rest)
unfolding parseexec
command_step n ts us rest c d v g e f =
    rw (parseexec, ◌>>=◌, peek-text (b'(' ∷ []) ts v, g, e, f) refl

-- What follows a pipeline starts with `&`, or is what follows the line.
amps_end : (k : ℕ) (rest : List Tok) → Ends after_pipe rest → Ends after_pipe (amp_toks k rest)
amps_end zero rest e = e
amps_end (suc k) rest e = refl

mutual
  unfolding line_toks pipe_toks simple_toks IsLine IsPipeline IsSimple line_cmd pipe_cmd simple_cmd

  line_ok :
      (l : Line) (n : ℕ) (rest : List Tok)
      → 4 * length (line_toks l rest) + 3 < n
      → IsLine l
      → AllTok rest
      → Ends after_line rest
      → parseline n (text (line_toks l rest)) ≡ done (line_cmd l) (text rest)
  line_ok l zero rest h v vr e = absurd (omega arith)
  line_ok (line p k) (suc n) rest h v vr e =
      let amps = amp_toks k rest in
      let (no_amp, no_semi, pipe_stops) = line_end rest e in
      let more = amps-length k rest in
      let longer = pipe-length p amps in
      line_step n (pipe_toks p amps) amps rest (pipe_cmd p) (backs k (pipe_cmd p))
        (pipe_ok p n amps (omega arith) v (amps-AllTok k rest vr) (amps_end k rest pipe_stops))
        (back_lem n k (pipe_cmd p) rest (omega arith) vr no_amp) vr no_semi
  line_ok (seq p k l) (suc n) rest h (v, w) vr e =
      let next = line_toks l rest in
      let all = line-AllTok l rest w vr in
      let amps = amp_toks k (sym_tok b';' ∷ next) in
      let more = amps-length k (sym_tok b';' ∷ next) in
      let longer = pipe-length p amps in
      seq_step n (pipe_toks p amps) amps next rest (pipe_cmd p) (backs k (pipe_cmd p)) (line_cmd l)
        (pipe_ok p n amps (omega arith) v (amps-AllTok k (sym_tok b';' ∷ next) (refl, all))
          (amps_end k (sym_tok b';' ∷ next) refl))
        (back_lem n k (pipe_cmd p) (sym_tok b';' ∷ next) (omega arith) (refl, all) refl) all
        (line_ok l n rest (omega arith) w vr e)

  pipe_ok :
      (p : Pipeline) (n : ℕ) (rest : List Tok)
      → 4 * length (pipe_toks p rest) + 2 < n
      → IsPipeline p
      → AllTok rest
      → Ends after_pipe rest
      → parsepipe n (text (pipe_toks p rest)) ≡ done (pipe_cmd p) (text rest)
  pipe_ok p zero rest h v vr e = absurd (omega arith)
  pipe_ok (single s) (suc n) rest h v vr e =
      let (no_bar, stops) = pipe_end rest e in
      pipe_step n (simple_toks s rest) rest (simple_cmd s)
        (simple_ok s n rest (omega arith) v vr stops) vr no_bar
  pipe_ok (piped s p) (suc n) rest h (v, w) vr e =
      let next = pipe_toks p rest in
      let all = pipe-AllTok p rest w vr in
      let longer = simple-length s (sym_tok b'|' ∷ next) in
      piped_step n (simple_toks s (sym_tok b'|' ∷ next)) next rest (simple_cmd s) (pipe_cmd p)
        (simple_ok s n (sym_tok b'|' ∷ next) (omega arith) v (refl, all) refl) all
        (pipe_ok p n rest (omega arith) w vr e)

  simple_ok :
      (s : Simple) (n : ℕ) (rest : List Tok)
      → 4 * length (simple_toks s rest) + 1 < n
      → IsSimple s
      → AllTok rest
      → Ends after_simple rest
      → parseexec n (text (simple_toks s rest)) ≡ done (simple_cmd s) (text rest)
  simple_ok s zero rest h v vr e = absurd (omega arith)
  simple_ok s (suc zero) rest h v vr e = absurd (omega arith)
  simple_ok (block l rs) (suc (suc n)) rest h (v, w) vr e =
      let us = redir_toks rs rest in
      let all = redirs-AllTok rs rest w vr in
      let short = redirs-length rs rest in
      let longer = line-length l (sym_tok b')' ∷ us) in
      block_step n (line_toks l (sym_tok b')' ∷ us)) us rest (line_cmd l)
        (with_redirs rs (line_cmd l)) (line-AllTok l (sym_tok b')' ∷ us) v (refl, all))
        (line_ok l n (sym_tok b')' ∷ us) (omega arith) v (refl, all) refl) all
        (redirs_lem n rs (line_cmd l) rest (omega arith) w vr (Ends-redir rest e))
  simple_ok (command rs args) (suc (suc n)) rest h (v, w, few) vr e =
      let us = arg_toks args rest in
      let all = args-AllTok args rest w vr in
      let short = redirs-length rs us in
      command_step (suc n) (redir_toks rs us) us rest (with_redirs rs (exec []))
        (simple_cmd (command rs args)) (redirs-AllTok rs us v all) (command_start rs args rest w e)
        (redirs_lem (suc n) rs (exec []) us (omega arith) v all (args-redir args rest w e))
        (args_lem (suc n) 0 args (with_redirs rs (exec [])) rest (omega arith) (omega arith) w vr e
          ∙ ap (λ c. done c (text rest)) (with_args_lem args rs []))

-- `parsecmd` of the text of a command line, in which each token is followed by a space, gives the tree that
-- the line means and leaves nothing over; the words of a command are at most nine.
pub parsecmd-text : (l : Line) → IsLine l → parsecmd (text (line_toks l [])) ≡ done (line_cmd l) []
unfolding parsecmd
parsecmd-text l v =
    let ts = line_toks l [] in
    let all = line-AllTok l [] v tt in
    let parsed = line_ok l (4 * length (text ts) + 4) [] (omega (arith, text-length ts)) v tt tt in
    rw (parsecmd, ◌>>=◌, parsed, ◌>>◌, ◌>>=◌, peek-text [] [] tt) refl
