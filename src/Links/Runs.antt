-- ===== src/Links/Runs.antt =====
-- Every call on a path keeps the numbers of links.
use operating_systems_cs.Prelude.{
  ℕ, ◌+◌, ◌≡◌, ◌≢◌, inl, inr, true, false, not, ◌&&◌, Bool-cases, arith, List, ◌==◌, Option, none,
  some, some_inj, Option-cases,
}
use operating_systems_cs.Links.{
  t_dir, t_file, t_dev, Fs, CallEnd, panics, fails, succeeds, CreateEnd, create_panics, not_created,
  created, iput, create, resolve, sys_unlink, sys_link, put_new, sys_mkdir, sys_mknod, sys_chdir,
  open_inode, set_nlink,
}
use operating_systems_cs.Links.Entries.{is_proper}
use operating_systems_cs.Links.Balance.{IsFs, not_zero, iput-IsFs}
use operating_systems_cs.Links.Resolve.{resolve-IsFs}
use operating_systems_cs.Links.Unlink.{EndsWell, sys_unlink-EndsWell}
use operating_systems_cs.Links.Link.{sys_link-EndsWell}
use operating_systems_cs.Links.Create.{CreatesWell, create-CreatesWell}

-- The state after a call that does not panic.
abbrev pub after : CallEnd → Option Fs
after panics = none
after (fails s) = some s
after (succeeds s) = some s

abbrev pub after_create : CreateEnd → Option Fs
after_create create_panics = none
after_create (not_created s) = some s
after_create (created i s) = some s

-- A new entry of that path has a proper name and goes to a directory that has links.
abbrev pub Creatable : ℕ → List ℕ → Fs → Type 0
Creatable cwd path s =
    (t : Fs) (dp : ℕ) (name : List ℕ)
    → resolve true cwd path s ≡ some (t, some (dp, name))
    → (t.nlink dp ≢ 0) × (is_proper name ≡ true)

-- The calls of a process with the current directory `cwd`.
pub data Step (s t : Fs) : Type 0 where
  unlinks : (cwd : ℕ) (path : List ℕ) → after (sys_unlink cwd path s) ≡ some t → Step s t
  links :
      (cwd : ℕ) (old new : List ℕ)
      → ((t u : Fs) (ip dp : ℕ) (rest name : List ℕ)
          → resolve false cwd old s ≡ some (t, some (ip, rest))
          → resolve true cwd new (set_nlink ip (t.nlink ip + 1) t) ≡ some (u, some (dp, name))
          → t.nlink dp ≢ 0)
      → after (sys_link cwd old new s) ≡ some t
      → Step s t
  mkdirs :
      (cwd : ℕ) (path : List ℕ)
      → Creatable cwd path s
      → after (sys_mkdir cwd path s) ≡ some t
      → Step s t
  mknods :
      (cwd : ℕ) (path : List ℕ) (device : ℕ × ℕ)
      → Creatable cwd path s
      → after (sys_mknod cwd path device s) ≡ some t
      → Step s t
  creates :
      (cwd : ℕ) (path : List ℕ) (omode : ℕ)
      → Creatable cwd path s
      → after_create (open_inode cwd path true omode s) ≡ some t
      → Step s t
  opens :
      (cwd : ℕ) (path : List ℕ) (omode : ℕ)
      → after_create (open_inode cwd path false omode s) ≡ some t
      → Step s t
  chdirs :
      (cwd : ℕ) (path : List ℕ) → cwd ≢ 0 → after_create (sys_chdir cwd path s) ≡ some t → Step s t

EndsWell-after : (e : CallEnd) (t : Fs) → EndsWell e → after e ≡ some t → IsFs t
EndsWell-after panics t w h = let q : none ≡ some t = h in cc
EndsWell-after (fails s) t w h = rw (← some_inj h) w
EndsWell-after (succeeds s) t w h = rw (← some_inj h) w

put_new-IsFs :
    (s t : Fs) (type : ℕ) (e : CreateEnd)
    → type ≢ 0
    → CreatesWell s type e
    → after (put_new e) ≡ some t
    → IsFs t
put_new-IsFs s t type create_panics used w h = let q : none ≡ some t = h in cc
put_new-IsFs s t type (not_created s') used w h = rw (← some_inj h) w
put_new-IsFs s t type (created ip s') used (w, q) h =
    rw (← some_inj h) (iput-IsFs s' ip w (not_zero s' w ip (λ e. omega arith)))

created-IsFs :
    (s t : Fs) (type : ℕ) (e : CreateEnd) → CreatesWell s type e → after_create e ≡ some t → IsFs t
created-IsFs s t type create_panics w h = let q : none ≡ some t = h in cc
created-IsFs s t type (not_created s') w h = rw (← some_inj h) w
created-IsFs s t type (created ip s') (w, q) h = rw (← some_inj h) w

opened-IsFs :
    (cwd : ℕ) (path : List ℕ) (omode : ℕ) (s t : Fs)
    → IsFs s
    → after_create (open_inode cwd path false omode s) ≡ some t
    → IsFs t
unfolding open_inode
opened-IsFs cwd path omode s t v h = elim (Option-cases (resolve false cwd path s)) [
  | inl bad ↦ let q : none ≡ some t = rw (open_inode, bad) at h in cc
  | inr ((s1, end), e1) ↦
      let w = resolve-IsFs false cwd path s s1 end e1 v in
      elim (Option-cases end) [
        | inl out ↦ let q : some s1 ≡ some t = rw (open_inode, e1, out) at h in rw (← some_inj q) w
        | inr ((ip, rest), e) ↦ elim (Bool-cases (s1.type ip == 0)) [
          | inl free ↦ let q : none ≡ some t = rw (open_inode, e1, e, free) at h in cc
          | inr typed ↦ elim (Bool-cases (s1.type ip == t_dir && not (omode == 0))) [
            | inl dir ↦
                let q : some (iput ip s1) ≡ some t = rw (open_inode, e1, e, typed, dir) at h in
                rw (← some_inj q) (iput-IsFs s1 ip w (not_zero s1 w ip (λ z. ground arith)))
            | inr file ↦
                let q : some s1 ≡ some t = rw (open_inode, e1, e, typed, file) at h in
                rw (← some_inj q) w
          ]
        ]
      ]
]

changed-IsFs :
    (cwd : ℕ) (path : List ℕ) (s t : Fs)
    → IsFs s
    → cwd ≢ 0
    → after_create (sys_chdir cwd path s) ≡ some t
    → IsFs t
unfolding sys_chdir
changed-IsFs cwd path s t v ne h = elim (Option-cases (resolve false cwd path s)) [
  | inl bad ↦ let q : none ≡ some t = rw (sys_chdir, bad) at h in cc
  | inr ((s1, end), e1) ↦
      let w = resolve-IsFs false cwd path s s1 end e1 v in
      elim (Option-cases end) [
        | inl out ↦ let q : some s1 ≡ some t = rw (sys_chdir, e1, out) at h in rw (← some_inj q) w
        | inr ((ip, rest), e) ↦ elim (Bool-cases (s1.type ip == 0)) [
          | inl free ↦ let q : none ≡ some t = rw (sys_chdir, e1, e, free) at h in cc
          | inr typed ↦ elim (Bool-cases (s1.type ip == t_dir)) [
            | inl dir ↦
                let q : some (iput cwd s1) ≡ some t = rw (sys_chdir, e1, e, typed, dir) at h in
                rw (← some_inj q) (iput-IsFs s1 cwd w ne)
            | inr file ↦
                let q : some (iput ip s1) ≡ some t = rw (sys_chdir, e1, e, typed, file) at h in
                rw (← some_inj q) (iput-IsFs s1 ip w (not_zero s1 w ip (λ z. ground arith)))
          ]
        ]
      ]
]

Step-IsFs : {s t : Fs} → Step s t → IsFs s → IsFs t
unfolding sys_mkdir sys_mknod open_inode
Step-IsFs {s} {t} (unlinks cwd path h) v =
    EndsWell-after (sys_unlink cwd path s) t (sys_unlink-EndsWell cwd path s v) h
Step-IsFs {s} {t} (links cwd old new held h) v =
    EndsWell-after (sys_link cwd old new s) t (sys_link-EndsWell cwd old new s v held) h
Step-IsFs {s} {t} (mkdirs cwd path ok h) v =
    put_new-IsFs s t t_dir (create cwd path t_dir (0, 0) s) (λ e. omega arith)
      (create-CreatesWell cwd path t_dir (0, 0) s v (λ e. omega arith) ok) h
Step-IsFs {s} {t} (mknods cwd path device ok h) v =
    put_new-IsFs s t t_dev (create cwd path t_dev device s) (λ e. omega arith)
      (create-CreatesWell cwd path t_dev device s v (λ e. omega arith) ok) h
Step-IsFs {s} {t} (creates cwd path omode ok h) v =
    created-IsFs s t t_file (create cwd path t_file (0, 0) s)
      (create-CreatesWell cwd path t_file (0, 0) s v (λ e. omega arith) ok) h
Step-IsFs {s} {t} (opens cwd path omode h) v = opened-IsFs cwd path omode s t v h
Step-IsFs {s} {t} (chdirs cwd path ne h) v = changed-IsFs cwd path s t v ne h

-- A run of calls, by any processes.
pub data Reach (s : Fs) : Fs → Type 0 where
  start : Reach s s
  then_step : {t u : Fs} → Reach s t → Step t u → Reach s u

-- Whatever calls on paths follow one another, by processes in any directories, sys_unlink, sys_link, sys_mkdir,
-- sys_mknod, sys_open and sys_chdir, a well-formed state stays well-formed: `nlink` counts the entries that
-- name an inode, and the subdirectories of a directory, and freed inodes have none. A call that makes
-- an entry does so under a name other than `.` and `..`, in a directory that has links. A call that panics
-- ends the run.
pub Reach-IsFs : {s t : Fs} → Reach s t → IsFs s → IsFs t
Reach-IsFs start v = v
Reach-IsFs (then_step run step) v = Step-IsFs step (Reach-IsFs run v)
