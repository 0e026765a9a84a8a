-- ===== src/Shell/Args.antt =====
-- The parser reads the words of a command.
use operating_systems_cs.Prelude.{
  ℕ, zero, suc, ◌+◌, ◌≤◌, ◌<◌, ◌≡◌, refl, ◌∙◌, true, false, arith, leb, List, [], ◌∷◌, ◌++◌,
  append_assoc, append-nil, map, length,
}
use operating_systems_cs.Shell.Monad.{done, ◌>>=◌}
use operating_systems_cs.Shell.Grammar.{
  Redir, from, to, append_to, Arg, Tok, word_tok, redir_toks, arg_toks, text, with_redirs,
  all_redirs, IsWord, AllArg, AllTok,
}
use operating_systems_cs.Shell.Lexer.{gettoken-text, peek-text}
use operating_systems_cs.Shell.{Cmd, exec, redir, gettoken, starts, parseredirs, add_arg, exec_loop}
use operating_systems_cs.Shell.Redirs.{word-starts, redirs-AllTok, redirs_lem}

-- What comes next ends a command: nothing, or one of the characters.
abbrev pub Ends : List ℕ → List Tok → Type 0
Ends toks [] = Unit {0}
Ends toks (t ∷ ts) = starts toks (text (t ∷ ts)) ≡ true

starts-not :
    (s : List ℕ)
    → starts (b'|' ∷ b')' ∷ b'&' ∷ b';' ∷ []) s ≡ true
    → starts (b'<' ∷ b'>' ∷ []) s ≡ false
starts-not [] h = refl
starts-not (c ∷ cs) h = ground arith

pub Ends-redir :
    (rest : List Tok)
    → Ends (b'|' ∷ b')' ∷ b'&' ∷ b';' ∷ []) rest
    → starts (b'<' ∷ b'>' ∷ []) (text rest) ≡ false
Ends-redir [] e = refl
Ends-redir (t ∷ ts) e = starts-not (text (t ∷ ts)) e

gettoken_end : gettoken [] ≡ done (0, []) []
unfolding gettoken
gettoken_end = refl

exec_end :
    (n argc : ℕ) (ret : Cmd) (rest : List Tok)
    → AllTok rest
    → Ends (b'|' ∷ b')' ∷ b'&' ∷ b';' ∷ []) rest
    → exec_loop (suc n) argc ret (text rest) ≡ done ret (text rest)
unfolding exec_loop
exec_end n argc ret [] v e =
    rw (exec_loop, ◌>>=◌, peek-text (b'|' ∷ b')' ∷ b'&' ∷ b';' ∷ []) [] tt, gettoken_end) refl
exec_end n argc ret (t ∷ ts) v e =
    rw (exec_loop, ◌>>=◌, peek-text (b'|' ∷ b')' ∷ b'&' ∷ b';' ∷ []) (t ∷ ts) v, e) refl

exec_step :
    (n argc : ℕ) (w : List ℕ) (ret : Cmd) (ts : List Tok)
    → IsWord w
    → AllTok ts
    → argc + 1 < 10
    → exec_loop (suc n) argc ret (text (word_tok w ∷ ts))
      ≡ ◌>>=◌ (parseredirs n (add_arg w ret)) (exec_loop n (argc + 1)) (text ts)
unfolding exec_loop
exec_step n argc w ret ts hw hts few =
    let more : leb 10 (argc + 1) ≡ false = ground arith in
    let (a, go_on, b) = word-starts w ts hw in
    rw
      (
        exec_loop,
        ◌>>=◌,
        peek-text (b'|' ∷ b')' ∷ b'&' ∷ b';' ∷ []) (word_tok w ∷ ts) (hw, hts),
        go_on,
        gettoken-text (word_tok w) ts hw hts,
        more,
      )
      refl

abbrev pub with_args : List Arg → Cmd → Cmd
with_args [] c = c
with_args (a ∷ args) c = with_args args (with_redirs a.redirs (add_arg a.text c))

pub redirs-length :
    (rs : List Redir) (rest : List Tok) → length rs + length rest ≤ length (redir_toks rs rest)
redirs-length [] rest = omega arith
redirs-length (from w ∷ rs) rest = omega (arith, redirs-length rs rest)
redirs-length (to w ∷ rs) rest = omega (arith, redirs-length rs rest)
redirs-length (append_to w ∷ rs) rest = omega (arith, redirs-length rs rest)

pub args-length : (args : List Arg) (rest : List Tok) → length rest ≤ length (arg_toks args rest)
args-length [] rest = omega arith
args-length (a ∷ args) rest =
    let more = redirs-length a.redirs (arg_toks args rest) in omega (arith, args-length args rest)

pub args-AllTok :
    (args : List Arg) (rest : List Tok) → AllArg args → AllTok rest → AllTok (arg_toks args rest)
args-AllTok [] rest v vr = vr
args-AllTok (a ∷ args) rest (w, r, v) vr =
    (w, redirs-AllTok a.redirs (arg_toks args rest) r (args-AllTok args rest v vr))

-- The words of a command and then its end start no redirection.
pub args-redir :
    (args : List Arg) (rest : List Tok)
    → AllArg args
    → Ends (b'|' ∷ b')' ∷ b'&' ∷ b';' ∷ []) rest
    → starts (b'<' ∷ b'>' ∷ []) (text (arg_toks args rest)) ≡ false
args-redir [] rest v e = Ends-redir rest e
args-redir (a ∷ args) rest (w, r, v) e =
    (word-starts a.text (redir_toks a.redirs (arg_toks args rest)) w).0

pub args_lem :
    (n argc : ℕ) (args : List Arg) (ret : Cmd) (rest : List Tok)
    → length (arg_toks args rest) < n
    → argc + length args < 10
    → AllArg args
    → AllTok rest
    → Ends (b'|' ∷ b')' ∷ b'&' ∷ b';' ∷ []) rest
    → exec_loop n argc ret (text (arg_toks args rest)) ≡ done (with_args args ret) (text rest)
args_lem zero argc args ret rest h few v vr e = absurd (omega arith)
args_lem (suc n) argc [] ret rest h few v vr e = exec_end n argc ret rest vr e
args_lem (suc n) argc (a ∷ args) ret rest h few (w, r, v) vr e =
    let next = arg_toks args rest in
    let all = args-AllTok args rest v vr in
    let short = redirs-length a.redirs next in
    exec_step n argc a.text ret (redir_toks a.redirs next) w (redirs-AllTok a.redirs next r all)
      (omega arith)
    ∙ rw
        (
          ◌>>=◌,
          redirs_lem n a.redirs (add_arg a.text ret) next (omega arith) r all
              (args-redir args rest v e),
        )
        (args_lem n (argc + 1) args (with_redirs a.redirs (add_arg a.text ret)) rest (omega arith)
          (omega arith) v vr e)

-- What `add_arg` does under redirections.
add_arg-redirs :
    (rs : List Redir) (w : List ℕ) (c : Cmd)
    → add_arg w (with_redirs rs c) ≡ with_redirs rs (add_arg w c)
add_arg-redirs [] w c = refl
add_arg-redirs (from f ∷ rs) w c = add_arg-redirs rs w (redir c f 0 0)
add_arg-redirs (to f ∷ rs) w c = add_arg-redirs rs w (redir c f 0x201 1)
add_arg-redirs (append_to f ∷ rs) w c = add_arg-redirs rs w (redir c f 0x201 1)

redirs-append :
    (rs qs : List Redir) (c : Cmd) → with_redirs (rs ++ qs) c ≡ with_redirs qs (with_redirs rs c)
redirs-append [] qs c = refl
redirs-append (from f ∷ rs) qs c = redirs-append rs qs (redir c f 0 0)
redirs-append (to f ∷ rs) qs c = redirs-append rs qs (redir c f 0x201 1)
redirs-append (append_to f ∷ rs) qs c = redirs-append rs qs (redir c f 0x201 1)

-- The tree that the loop builds is the command with all its words and redirections.
pub with_args_lem :
    (args : List Arg) (rs : List Redir) (ws : List (List ℕ))
    → with_args args (with_redirs rs (exec ws))
      ≡ with_redirs (rs ++ all_redirs args) (exec (ws ++ map (λ a. a.text) args))
with_args_lem [] rs ws = rw (append-nil rs, append-nil ws) refl
with_args_lem (a ∷ args) rs ws =
    rw
      (add_arg-redirs rs a.text (exec ws), ← redirs-append rs a.redirs (exec (ws ++ (a.text ∷ []))))
      (with_args_lem args (rs ++ a.redirs) (ws ++ (a.text ∷ []))
        ∙ rw
            (
              append_assoc rs a.redirs (all_redirs args),
              append_assoc ws (a.text ∷ []) (map (λ a. a.text) args),
            )
            refl)
