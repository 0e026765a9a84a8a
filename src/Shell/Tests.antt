-- ===== src/Shell/Tests.antt =====
-- Some command lines.
use Prim.Native.Char.{code}
use Prim.Native.String.{String}
use operating_systems_cs.Prelude.{ℕ, ◌≡◌, refl, arith, List, [], ◌∷◌}
use operating_systems_cs.Shell.Monad.{Panic, done, panics}
use operating_systems_cs.Shell.Grammar.{
  Line, line, seq, single, piped, block, command, from, append_to, text, line_toks, line_cmd,
  IsLine,
}
use operating_systems_cs.Shell.Trees.{parsecmd-text}
use operating_systems_cs.Shell.Ends.{Ended, parsecmd-Ended}
use operating_systems_cs.Shell.{
  exec, redir, pipe, both, back, parsecmd, parseline, parsepipe, parseexec, parseblock, back_loop,
  exec_loop, parseredirs, gettoken, peek,
}

abbrev codes : String → List ℕ
codes String.[] = []
codes (String.◌∷◌ c s) = code c ∷ codes s

piped_line :
    parsecmd (codes "ls -l<a|(wc;cat)>>b &\n")
    ≡ done
        (back (
          pipe
            (redir (exec (codes "ls" ∷ codes "-l" ∷ [])) (codes "a") 0 0)
            (redir (both (exec (codes "wc" ∷ [])) (exec (codes "cat" ∷ []))) (codes "b") 0x201 1)))
        []
unfolding parsecmd parseline parsepipe parseexec parseblock back_loop exec_loop parseredirs gettoken
    peek
piped_line = refl

-- A command after `&` wants a `;` before it.
two_commands : parsecmd (codes "ls & wc") ≡ panics Panic.leftovers
unfolding parsecmd parseline parsepipe parseexec parseblock back_loop exec_loop parseredirs gettoken
    peek
two_commands = refl

-- The line `( ls -l < a | wc ) >> b & ; echo`.
abbrev sample : Line
sample =
    seq
      (single (
        block
          (line
            (piped
              (command [] (
                record { text = codes "ls"; redirs = [] }
                ∷ record { text = codes "-l"; redirs = from (codes "a") ∷ [] }
                ∷ []))
              (single (command [] (record { text = codes "wc"; redirs = [] } ∷ []))))
            0)
          (append_to (codes "b") ∷ [])))
      1 (line (single (command [] (record { text = codes "echo"; redirs = [] } ∷ []))) 0)

sample-IsLine : IsLine sample
unfolding IsLine
sample-IsLine = ground arith

parsecmd-text_example : parsecmd (text (line_toks sample [])) ≡ done (line_cmd sample) []
parsecmd-text_example = parsecmd-text sample sample-IsLine

parsecmd-Ended_example : Ended (parsecmd (codes "(ls"))
parsecmd-Ended_example = parsecmd-Ended (codes "(ls")
