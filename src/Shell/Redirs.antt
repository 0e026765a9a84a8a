-- ===== src/Shell/Redirs.antt =====
-- The parser reads redirections.
use operating_systems_cs.Prelude.{
  ℕ, zero, suc, ◌<◌, ◌≡◌, refl, ◌∙◌, true, false, arith, List, [], ◌∷◌, length,
}
use operating_systems_cs.Shell.Monad.{done, ◌>>=◌}
use operating_systems_cs.Shell.Grammar.{
  Redir, from, to, append_to, Tok, sym_tok, gt_tok, gtgt_tok, word_tok, redir_toks, chars, text,
  with_redirs, IsWord, AllRedir, IsTok, AllTok,
}
use operating_systems_cs.Shell.Lexer.{kind, gettoken-text, peek-text}
use operating_systems_cs.Shell.{Cmd, redir, starts, redirected, parseredirs}

-- A word starts no redirection, and ends no command.
pub word-starts :
    (w : List ℕ) (ts : List Tok)
    → IsWord w
    → (starts (b'<' ∷ b'>' ∷ []) (text (word_tok w ∷ ts)) ≡ false)
      × (starts (b'|' ∷ b')' ∷ b'&' ∷ b';' ∷ []) (text (word_tok w ∷ ts)) ≡ false)
      × (starts (b'(' ∷ []) (text (word_tok w ∷ ts)) ≡ false)
word-starts [] ts (all, ne) = absurd (ne refl)
word-starts (c ∷ cs) ts ((w, all), ne) = (ground arith, ground arith, ground arith)

pub starts-chars :
    (toks : List ℕ) (t : Tok) (ts : List Tok)
    → starts toks (chars t) ≡ true
    → starts toks (text (t ∷ ts)) ≡ true
starts-chars toks (sym_tok c) ts h = h
starts-chars toks gt_tok ts h = h
starts-chars toks gtgt_tok ts h = h
starts-chars toks (word_tok []) ts h = absurd (ground arith)
starts-chars toks (word_tok (c ∷ cs)) ts h = h

redir_step :
    (n : ℕ) (t : Tok) (w : List ℕ) (cmd : Cmd) (ts : List Tok)
    → IsTok t
    → IsWord w
    → AllTok ts
    → starts (b'<' ∷ b'>' ∷ []) (chars t) ≡ true
    → parseredirs (suc n) cmd (text (t ∷ word_tok w ∷ ts))
      ≡ parseredirs n (redirected (kind t) w cmd) (text ts)
unfolding parseredirs
redir_step n t w cmd ts ht hw hts e =
    rw
      (
        parseredirs,
        ◌>>=◌,
        peek-text (b'<' ∷ b'>' ∷ []) (t ∷ word_tok w ∷ ts) (ht, (hw, hts)),
        starts-chars (b'<' ∷ b'>' ∷ []) t (word_tok w ∷ ts) e,
        gettoken-text t (word_tok w ∷ ts) ht (hw, hts),
        gettoken-text (word_tok w) ts hw hts,
      )
      refl

redirs_end :
    (n : ℕ) (cmd : Cmd) (rest : List Tok)
    → AllTok rest
    → starts (b'<' ∷ b'>' ∷ []) (text rest) ≡ false
    → parseredirs (suc n) cmd (text rest) ≡ done cmd (text rest)
unfolding parseredirs
redirs_end n cmd rest v e = rw (parseredirs, ◌>>=◌, peek-text (b'<' ∷ b'>' ∷ []) rest v, e) refl

pub redirs-AllTok :
    (rs : List Redir) (rest : List Tok) → AllRedir rs → AllTok rest → AllTok (redir_toks rs rest)
redirs-AllTok [] rest v vr = vr
redirs-AllTok (from w ∷ rs) rest (h, v) vr = (refl, (h, redirs-AllTok rs rest v vr))
redirs-AllTok (to w ∷ rs) rest (h, v) vr = (tt, (h, redirs-AllTok rs rest v vr))
redirs-AllTok (append_to w ∷ rs) rest (h, v) vr = (tt, (h, redirs-AllTok rs rest v vr))

pub redirs_lem :
    (n : ℕ) (rs : List Redir) (cmd : Cmd) (rest : List Tok)
    → length rs < n
    → AllRedir rs
    → AllTok rest
    → starts (b'<' ∷ b'>' ∷ []) (text rest) ≡ false
    → parseredirs n cmd (text (redir_toks rs rest)) ≡ done (with_redirs rs cmd) (text rest)
redirs_lem zero rs cmd rest h v vr e = absurd (omega arith)
redirs_lem (suc n) [] cmd rest h v vr e = redirs_end n cmd rest vr e
redirs_lem (suc n) (from w ∷ rs) cmd rest h (hw, v) vr e =
    redir_step n (sym_tok b'<') w cmd (redir_toks rs rest) refl hw (redirs-AllTok rs rest v vr) refl
    ∙ redirs_lem n rs (redir cmd w 0 0) rest (omega arith) v vr e
redirs_lem (suc n) (to w ∷ rs) cmd rest h (hw, v) vr e =
    redir_step n gt_tok w cmd (redir_toks rs rest) tt hw (redirs-AllTok rs rest v vr) refl
    ∙ redirs_lem n rs (redir cmd w 0x201 1) rest (omega arith) v vr e
redirs_lem (suc n) (append_to w ∷ rs) cmd rest h (hw, v) vr e =
    redir_step n gtgt_tok w cmd (redir_toks rs rest) tt hw (redirs-AllTok rs rest v vr) refl
    ∙ redirs_lem n rs (redir cmd w 0x201 1) rest (omega arith) v vr e
