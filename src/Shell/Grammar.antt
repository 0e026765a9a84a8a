-- ===== src/Shell/Grammar.antt =====
-- The command lines of the shell, the tokens they are written with, and the trees that they mean.
use operating_systems_cs.Prelude.{
  ℕ, zero, suc, ◌<◌, ◌≡◌, ◌≢◌, true, List, [], ◌∷◌, ◌++◌, map, length,
}
use operating_systems_cs.Shell.{
  Cmd, exec, redir, pipe, both, back, rdonly, wronly_create, in_word, is_single,
}

pub data Redir : Type 0 where
  from : List ℕ → Redir
  to : List ℕ → Redir
  append_to : List ℕ → Redir

-- A word, and the redirections after it.
pub record Arg : Type 0 where
  pub text : List ℕ
  pub redirs : List Redir

mutual
  -- A pipeline with a number of `&`, and what follows after a `;`.
  pub data Line : Type 0 where
    line : Pipeline → ℕ → Line
    seq : Pipeline → ℕ → Line → Line

  pub data Pipeline : Type 0 where
    single : Simple → Pipeline
    piped : Simple → Pipeline → Pipeline

  pub data Simple : Type 0 where
    block : Line → List Redir → Simple
    command : List Redir → List Arg → Simple

pub data Tok : Type 0 where
  sym_tok : ℕ → Tok
  gt_tok : Tok
  gtgt_tok : Tok
  word_tok : List ℕ → Tok

-- The tokens in front of those of the rest.
abbrev pub redir_toks : List Redir → List Tok → List Tok
redir_toks [] rest = rest
redir_toks (from w ∷ rs) rest = sym_tok b'<' ∷ word_tok w ∷ redir_toks rs rest
redir_toks (to w ∷ rs) rest = gt_tok ∷ word_tok w ∷ redir_toks rs rest
redir_toks (append_to w ∷ rs) rest = gtgt_tok ∷ word_tok w ∷ redir_toks rs rest

abbrev pub arg_toks : List Arg → List Tok → List Tok
arg_toks [] rest = rest
arg_toks (a ∷ args) rest = word_tok a.text ∷ redir_toks a.redirs (arg_toks args rest)

abbrev pub amp_toks : ℕ → List Tok → List Tok
amp_toks zero rest = rest
amp_toks (suc k) rest = sym_tok b'&' ∷ amp_toks k rest

unfoldable mutual
  pub line_toks : Line → List Tok → List Tok
  line_toks (line p k) rest = pipe_toks p (amp_toks k rest)
  line_toks (seq p k l) rest = pipe_toks p (amp_toks k (sym_tok b';' ∷ line_toks l rest))

  pub pipe_toks : Pipeline → List Tok → List Tok
  pipe_toks (single s) rest = simple_toks s rest
  pipe_toks (piped s p) rest = simple_toks s (sym_tok b'|' ∷ pipe_toks p rest)

  pub simple_toks : Simple → List Tok → List Tok
  simple_toks (block l rs) rest = sym_tok b'(' ∷ line_toks l (sym_tok b')' ∷ redir_toks rs rest)
  simple_toks (command rs args) rest = redir_toks rs (arg_toks args rest)

-- The characters, with a space after each token.
abbrev pub chars : Tok → List ℕ
chars (sym_tok c) = c ∷ []
chars gt_tok = b'>' ∷ []
chars gtgt_tok = b'>' ∷ b'>' ∷ []
chars (word_tok w) = w

abbrev pub text : List Tok → List ℕ
text [] = []
text (t ∷ ts) = chars t ++ (b' ' ∷ text ts)

-- The tree of a command: its redirections, in order, round its words.
abbrev pub with_redirs : List Redir → Cmd → Cmd
with_redirs [] c = c
with_redirs (from w ∷ rs) c = with_redirs rs (redir c w rdonly 0)
with_redirs (to w ∷ rs) c = with_redirs rs (redir c w wronly_create 1)
with_redirs (append_to w ∷ rs) c = with_redirs rs (redir c w wronly_create 1)

abbrev pub all_redirs : List Arg → List Redir
all_redirs [] = []
all_redirs (a ∷ args) = a.redirs ++ all_redirs args

abbrev pub backs : ℕ → Cmd → Cmd
backs zero c = c
backs (suc k) c = backs k (back c)

unfoldable mutual
  pub line_cmd : Line → Cmd
  line_cmd (line p k) = backs k (pipe_cmd p)
  line_cmd (seq p k l) = both (backs k (pipe_cmd p)) (line_cmd l)

  pub pipe_cmd : Pipeline → Cmd
  pipe_cmd (single s) = simple_cmd s
  pipe_cmd (piped s p) = pipe (simple_cmd s) (pipe_cmd p)

  pub simple_cmd : Simple → Cmd
  simple_cmd (block l rs) = with_redirs rs (line_cmd l)
  simple_cmd (command rs args) = with_redirs (rs ++ all_redirs args) (exec (map (λ a. a.text) args))

-- A word has characters, none of them white or a symbol; a command has at most nine words.
abbrev pub AllWord : List ℕ → Type 0
AllWord [] = Unit {0}
AllWord (c ∷ cs) = (in_word c ≡ true) × AllWord cs

abbrev pub IsWord : List ℕ → Type 0
IsWord w = AllWord w × (w ≢ [])

abbrev pub IsRedir : Redir → Type 0
IsRedir (from w) = IsWord w
IsRedir (to w) = IsWord w
IsRedir (append_to w) = IsWord w

abbrev pub AllRedir : List Redir → Type 0
AllRedir [] = Unit {0}
AllRedir (r ∷ rs) = IsRedir r × AllRedir rs

abbrev pub AllArg : List Arg → Type 0
AllArg [] = Unit {0}
AllArg (a ∷ args) = IsWord a.text × AllRedir a.redirs × AllArg args

unfoldable mutual
  pub IsLine : Line → Type 0
  IsLine (line p k) = IsPipeline p
  IsLine (seq p k l) = IsPipeline p × IsLine l

  pub IsPipeline : Pipeline → Type 0
  IsPipeline (single s) = IsSimple s
  IsPipeline (piped s p) = IsSimple s × IsPipeline p

  pub IsSimple : Simple → Type 0
  IsSimple (block l rs) = IsLine l × AllRedir rs
  IsSimple (command rs args) = AllRedir rs × AllArg args × (length args < 10)

abbrev pub IsTok : Tok → Type 0
IsTok (sym_tok c) = is_single c ≡ true
IsTok gt_tok = Unit {0}
IsTok gtgt_tok = Unit {0}
IsTok (word_tok w) = IsWord w

abbrev pub AllTok : List Tok → Type 0
AllTok [] = Unit {0}
AllTok (t ∷ ts) = IsTok t × AllTok ts
