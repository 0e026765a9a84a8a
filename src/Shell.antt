-- ===== src/Shell.antt =====
-- project4/sh.c: the parser of the shell. The line is the list of its characters before the final NUL, and
-- the pointer `*ps` is what is left of it. A token is the list of the characters between `q` and `eq`,
-- which `nulterminate` makes a string. `malloc` does not fail here; `runcmd` is not modelled.
pub mod Monad
pub mod Grammar
pub mod Lexer
pub mod Redirs
pub mod Args
pub mod Lines
pub mod Trees
pub mod Progress
pub mod Ends
pub mod Tests
use operating_systems_cs.Prelude.{
  ℕ, zero, suc, ◌+◌, ◌*◌, Bool, true, false, not, ◌&&◌, ◌||◌, List, [], ◌∷◌, ◌++◌, leb, ◌==◌,
  if◌then◌else◌, has, length,
}
use Monad.{Panic, M, Parsed, out_of_fuel, panics, done, ◌>>=◌, ◌>>◌, return, panic, no_fuel}

abbrev pub maxargs : ℕ
maxargs = 10

-- `whitespace` and `symbols`.
abbrev pub whitespace : List ℕ
whitespace = b' ' ∷ b'\t' ∷ b'\r' ∷ b'\n' ∷ 11 ∷ []

abbrev pub symbols : List ℕ
symbols = b'<' ∷ b'|' ∷ b'>' ∷ b'&' ∷ b';' ∷ b'(' ∷ b')' ∷ []

-- The trees of `struct cmd`. The flags O_RDONLY and O_WRONLY|O_CREATE of a redirection are numbers.
pub data Cmd : Type 0 where
  exec : List (List ℕ) → Cmd
  redir : Cmd → List ℕ → ℕ → ℕ → Cmd
  pipe : Cmd → Cmd → Cmd
  both : Cmd → Cmd → Cmd
  back : Cmd → Cmd

abbrev pub rdonly : ℕ
rdonly = 0

abbrev pub wronly_create : ℕ
wronly_create = 0x201

-- `while(s < es && strchr(whitespace, *s)) s++`.
pub skip_white : List ℕ → List ℕ
skip_white [] = []
skip_white (c ∷ cs) = let rest = skip_white cs in if has c whitespace then rest else c ∷ cs

abbrev pub in_word : ℕ → Bool
in_word c = not (has c whitespace) && not (has c symbols)

-- The characters that the last loop of `gettoken` passes, and where it stops.
pub word : List ℕ → List ℕ
word [] = []
word (c ∷ cs) = let rest = word cs in if in_word c then c ∷ rest else []

pub after_word : List ℕ → List ℕ
after_word [] = []
after_word (c ∷ cs) = let rest = after_word cs in if in_word c then rest else c ∷ cs

-- The case `>`: the token is `>` or `+`.
abbrev pub after_gt : List ℕ → (ℕ × List ℕ) × List ℕ
after_gt [] = ((b'>', b'>' ∷ []), [])
after_gt (d ∷ cs) =
    if d == b'>' then ((b'+', b'>' ∷ b'>' ∷ []), cs) else ((b'>', b'>' ∷ []), d ∷ cs)

abbrev pub is_single : ℕ → Bool
is_single c = c == b'|' || (c == b'(' || (c == b')' || (c == b';' || (c == b'&' || c == b'<'))))

-- `gettoken` from a character that is no whitespace, up to the last loop.
pub token_at : List ℕ → (ℕ × List ℕ) × List ℕ
unfolding word after_word
token_at [] = ((0, []), [])
token_at (c ∷ cs) =
    if is_single c
    then ((c, c ∷ []), cs)
    else if c == b'>'
    then after_gt cs
    else ((b'a', word (c ∷ cs)), after_word (c ∷ cs))

pub gettoken : M (ℕ × List ℕ)
unfolding skip_white token_at
gettoken s = let (t, rest) = token_at (skip_white s) in done t (skip_white rest)

-- `*s && strchr(toks, *s)`.
abbrev pub starts : List ℕ → List ℕ → Bool
starts toks [] = false
starts toks (c ∷ cs) = has c toks

pub peek : List ℕ → M Bool
unfolding skip_white
peek toks s = done (starts toks (skip_white s)) (skip_white s)

-- The switch of `parseredirs`; `>>` is treated as `>`.
abbrev pub redirected : ℕ → List ℕ → Cmd → Cmd
redirected tok file cmd =
    if tok == b'<'
    then redir cmd file rdonly 0
    else if tok == b'>'
    then redir cmd file wronly_create 1
    else if tok == b'+'
    then redir cmd file wronly_create 1
    else cmd

-- The loops have a bound on their rounds, and the functions that call one another on the depth.
pub parseredirs : ℕ → Cmd → M Cmd
parseredirs zero cmd = no_fuel
parseredirs (suc n) cmd = do
  more ← peek (b'<' ∷ b'>' ∷ [])
  elim more [
    | false ↦ return cmd
    | true ↦ do
      t ← gettoken
      f ← gettoken
      elim (f.0 == b'a') [
        | true ↦ parseredirs n (redirected t.0 f.1 cmd)
        | false ↦ panic Panic.missing_file
      ]
  ]

-- `cmd->argv[argc] = q` through the pointer to the command below the redirections.
abbrev pub add_arg : List ℕ → Cmd → Cmd
add_arg w (exec ws) = exec (ws ++ (w ∷ []))
add_arg w (redir c f m d) = redir (add_arg w c) f m d
add_arg w (pipe c d) = pipe c d
add_arg w (both c d) = both c d
add_arg w (back c) = back c

-- The loop of `parseexec`.
pub exec_loop : ℕ → ℕ → Cmd → M Cmd
exec_loop zero argc ret = no_fuel
exec_loop (suc n) argc ret = do
  stop ← peek (b'|' ∷ b')' ∷ b'&' ∷ b';' ∷ [])
  elim stop [
    | true ↦ return ret
    | false ↦ do
      t ← gettoken
      elim (t.0 == 0) [
        | true ↦ return ret
        | false ↦ elim (t.0 == b'a') [
          | false ↦ panic Panic.syntax_error
          | true ↦ elim (leb maxargs (argc + 1)) [
            | true ↦ panic Panic.too_many_args
            | false ↦ do ret' ← parseredirs n (add_arg t.1 ret); exec_loop n (argc + 1) ret'
          ]
        ]
      ]
  ]

-- The loop of `parseline` over `&`.
pub back_loop : ℕ → Cmd → M Cmd
back_loop zero cmd = no_fuel
back_loop (suc n) cmd = do
  more ← peek (b'&' ∷ [])
  elim more [ false ↦ return cmd | true ↦ do gettoken; back_loop n (back cmd) ]

mutual
  pub parseline : ℕ → M Cmd
  parseline zero = no_fuel
  parseline (suc n) = do
    first ← parsepipe n
    cmd ← back_loop n first
    more ← peek (b';' ∷ [])
    elim more [
      | false ↦ return cmd
      | true ↦ do gettoken; rest ← parseline n; return (both cmd rest)
    ]

  pub parsepipe : ℕ → M Cmd
  parsepipe zero = no_fuel
  parsepipe (suc n) = do
    cmd ← parseexec n
    more ← peek (b'|' ∷ [])
    elim more [
      | false ↦ return cmd
      | true ↦ do gettoken; rest ← parsepipe n; return (pipe cmd rest)
    ]

  pub parseblock : ℕ → M Cmd
  parseblock zero = no_fuel
  parseblock (suc n) = do
    here ← peek (b'(' ∷ [])
    elim here [
      | false ↦ panic Panic.parseblock_panic
      | true ↦ do
        gettoken
        cmd ← parseline n
        closed ← peek (b')' ∷ [])
        elim closed [ false ↦ panic Panic.missing_paren | true ↦ do gettoken; parseredirs n cmd ]
    ]

  pub parseexec : ℕ → M Cmd
  parseexec zero = no_fuel
  parseexec (suc n) = do
    here ← peek (b'(' ∷ [])
    elim here [ true ↦ parseblock n | false ↦ do ret ← parseredirs n (exec []); exec_loop n 0 ret ]

abbrev pub is_empty : List ℕ → Bool
is_empty [] = true
is_empty (c ∷ cs) = false

-- `parsecmd` after `parseline`.
abbrev pub end_of_line : Cmd → M Cmd
end_of_line cmd s = if is_empty s then done cmd s else panics Panic.leftovers

-- `parsecmd`, with a bound that is never met.
pub parsecmd : List ℕ → Parsed Cmd
parsecmd s = (do cmd ← parseline (4 * length s + 4); peek []; end_of_line cmd) s
