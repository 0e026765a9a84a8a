-- ===== src/Files.antt =====
-- project4/file.c, and the system calls of project4/sysfile.c on descriptors: the table of open files with
-- its reference counts, and the descriptors of the processes. `ftable.lock` is held throughout each
-- operation on the table, so each is one step.
pub mod Tally
pub mod Counts
pub mod Calls
pub mod Tests
use operating_systems_cs.Prelude.{
  ℕ, zero, suc, ◌+◌, ◌-◌, Bool, true, false, ◌&&◌, ◌||◌, ltb, ◌==◌, if◌then◌else◌, Option, none,
  some, update, find,
}

abbrev pub nfile : ℕ
nfile = 100

abbrev pub nofile : ℕ
nofile = 16

-- `struct file`; a pipe and an inode are known by their addresses.
pub data FileType : Type 0 where
  fd_none fd_pipe fd_inode : FileType

pub record File : Type 0 where
  pub type : FileType
  pub ref : ℕ
  pub readable : Bool
  pub writable : Bool
  pub pipe : ℕ
  pub ip : ℕ
  pub off : ℕ

abbrev pub Ftable : Type 0
Ftable = ℕ → File

-- The first file with no reference, now with one; `none` if there is none.
pub filealloc : Ftable → Ftable × Option ℕ
filealloc t = elim (find nfile 0 (λ f. (t f).ref == 0)) [
  | none ↦ (t, none)
  | some f ↦ (update t f (record (t f) { ref = 1 }), some f)
]

-- `none` is the panic.
pub filedup : ℕ → Ftable → Option Ftable
filedup f t =
    if ltb (t f).ref 1 then none else some (update t f (record (t f) { ref = (t f).ref + 1 }))

-- What `fileclose` goes on to do: nothing, `pipeclose`, or `iput` in a transaction.
pub data Closing : Type 0 where
  kept : Closing
  close_pipe : ℕ → Bool → Closing
  put_inode : ℕ → Closing

pub closing_of : File → Closing
closing_of ff = elim ff.type [
  | fd_none ↦ kept
  | fd_pipe ↦ close_pipe ff.pipe ff.writable
  | fd_inode ↦ put_inode ff.ip
]

pub fileclose : ℕ → Ftable → Option (Ftable × Closing)
unfolding closing_of
fileclose f t =
    if ltb (t f).ref 1
    then none
    else if ltb 0 ((t f).ref - 1)
    then some (update t f (record (t f) { ref = (t f).ref - 1 }), kept)
    else some (update t f (record (t f) { ref = 0; type = fd_none }), closing_of (t f))

-- The descriptors of one process.
abbrev pub Ofile : Type 0
Ofile = ℕ → Option ℕ

abbrev pub is_free : Option ℕ → Bool
is_free none = true
is_free (some f) = false

-- The first free descriptor, now that of the file; `none` for -1.
pub fdalloc : ℕ → Ofile → Option (ℕ × Ofile)
fdalloc f o = elim (find nofile 0 (λ fd. is_free (o fd))) [
  | none ↦ none
  | some fd ↦ some (fd, update o fd (some f))
]

-- `argfd` on the descriptor that the system call got; `none` for -1.
pub argfd : ℕ → Ofile → Option ℕ
argfd fd o = if ltb fd nofile then o fd else none

-- The table of files and the descriptors of every process.
pub record Files : Type 0 where
  pub table : Ftable
  pub ofiles : ℕ → Ofile

-- What a system call does: it panics, returns -1, or returns a number.
pub data Result : Type 0 where
  panics : Result
  fails : Files → Result
  returns : ℕ → Files → Result

-- `sys_dup` and `sys_close` in process `p`.
pub sys_dup : ℕ → ℕ → Files → Result
unfolding argfd fdalloc filedup
sys_dup p fd s = elim (argfd fd (s.ofiles p)) [
  | none ↦ fails s
  | some f ↦ elim (fdalloc f (s.ofiles p)) [
    | none ↦ fails s
    | some (fd', o) ↦ elim (filedup f s.table) [
      | none ↦ panics
      | some t ↦ returns fd' (record { table = t; ofiles = update s.ofiles p o })
    ]
  ]
]

pub close_fd : ℕ → ℕ → ℕ → Files → Option (Files × Closing)
unfolding fileclose
close_fd p fd f s = elim (fileclose f s.table) [
  | none ↦ none
  | some (t, c) ↦
      some (record { table = t; ofiles = update s.ofiles p (update (s.ofiles p) fd none) }, c)
]

pub sys_close : ℕ → ℕ → Files → Result
unfolding argfd close_fd
sys_close p fd s = elim (argfd fd (s.ofiles p)) [
  | none ↦ fails s
  | some f ↦ elim (close_fd p fd f s) [ none ↦ panics | some (s', c) ↦ returns 0 s' ]
]

-- The loop of `exit` over the descriptors of process `p`, with `n` to go from `fd`; `none` is a panic.
pub close_all : ℕ → ℕ → ℕ → Files → Option Files
unfolding close_fd
close_all p zero fd s = some s
close_all p (suc n) fd s =
    let rest = λ (s' : Files). close_all p n (fd + 1) s' in
    elim (s.ofiles p fd) [
      | none ↦ rest s
      | some f ↦ elim (close_fd p fd f s) [ none ↦ none | some (s', c) ↦ rest s' ]
    ]

-- The loop of `fork` over the descriptors of process `p`, for the new process `q`.
pub dup_all : ℕ → ℕ → ℕ → ℕ → Files → Option Files
unfolding filedup
dup_all p q zero fd s = some s
dup_all p q (suc n) fd s =
    let rest = λ (s' : Files). dup_all p q n (fd + 1) s' in
    elim (s.ofiles p fd) [
      | none ↦ rest s
      | some f ↦ elim (filedup f s.table) [
        | none ↦ none
        | some t ↦
            rest
              (record { table = t; ofiles = update s.ofiles q (update (s.ofiles q) fd (some f)) })
      ]
    ]
