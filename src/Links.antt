-- ===== src/Links.antt =====
-- project4/sysfile.c: the system calls on paths, `create`, sys_link, sys_unlink, sys_open, sys_mkdir,
-- sys_mknod and sys_chdir, with `ialloc` of project4/fs.c. A directory is the list of its entries, whose
-- bytes are modelled in Directory. Each call runs in one transaction and holds the locks of the inodes that
-- it changes, so it is one step; the arguments are fetched before. There is one device; `nlink` is a number
-- without a bound, and names are those of `namex`, which has cut them to DIRSIZ bytes, so that `namecmp`
-- compares all of them.
-- Paths are followed by `namex` of Paths; what it drops are references to inodes that have links, that
-- others hold too, or that are free. The panics are those of `ilock` for a free inode, of `iget` where the
-- inode cache is full, of `dirlink` where the disk has no block for the entry, and of the calls themselves;
-- the log takes what a call writes.
pub mod Sums
pub mod Entries
pub mod Balance
pub mod Resolve
pub mod Added
pub mod Removed
pub mod Made
pub mod Link
pub mod Create
pub mod Runs
pub mod Unlink
pub mod Tests
use operating_systems_cs.Prelude.{
  ℕ, zero, suc, ◌+◌, ◌-◌, ◌*◌, Bool, true, false, not, ◌&&◌, ◌||◌, List, [], ◌∷◌, ltb, ◌==◌,
  if◌then◌else◌, Option, none, some, update, find, drop,
}
use operating_systems_cs.Directory.{LookupEnd, absent, found}
use operating_systems_cs.Paths.{WalkEnd, walk_panics, walked, has_room, namex}
pub use operating_systems_cs.Paths.{t_dir}

-- The types of inodes; 0 is a free inode. T_DIR is 1.
abbrev pub t_file : ℕ
t_file = 2

abbrev pub t_dev : ℕ
t_dev = 3

-- `struct dirent`, with the bytes of its name.
pub record Entry : Type 0 where
  pub inum : ℕ
  pub name : List ℕ

-- The inodes and what the directories hold; `ref` counts the pointers into the inode cache. Whether the disk
-- has the block that a new entry may need is `takes`, of the directory and its entries.
pub record Fs : Type 0 where
  pub ninodes : ℕ
  pub type : ℕ → ℕ
  pub nlink : ℕ → ℕ
  pub device : ℕ → ℕ × ℕ
  pub slots : ℕ → List Entry
  pub ref : ℕ → ℕ
  pub takes : ℕ → List Entry → Bool

abbrev pub dot : List ℕ
dot = b'.' ∷ []

abbrev pub dotdot : List ℕ
dotdot = b'.' ∷ b'.' ∷ []

-- `namecmp(s, t) == 0`.
abbrev pub same : List ℕ → List ℕ → Bool
same [] [] = true
same [] (y ∷ ys) = false
same (x ∷ xs) [] = false
same (x ∷ xs) (y ∷ ys) = x == y && same xs ys

-- `dirlookup`: the inode number and the index of the entry.
pub lookup : List ℕ → List Entry → Option (ℕ × ℕ)
lookup name [] = none
lookup name (e ∷ es) =
    if not (e.inum == 0) && same name e.name
    then some (e.inum, 0)
    else (elim (lookup name es) [ none ↦ none | some (i, k) ↦ some (i, suc k) ])

-- What `dirlink` writes where the name is not there: the first free entry, or a new one.
pub add_entry : List ℕ → ℕ → List Entry → List Entry
add_entry name inum [] = record { inum = inum; name = name } ∷ []
add_entry name inum (e ∷ es) =
    let rest = add_entry name inum es in
    if e.inum == 0 then record { inum = inum; name = name } ∷ es else e ∷ rest

-- The entry at an index is overwritten by zeros.
pub clear_entry : ℕ → List Entry → List Entry
clear_entry k [] = []
clear_entry zero (e ∷ es) = record { inum = 0; name = [] } ∷ es
clear_entry (suc k) (e ∷ es) = e ∷ clear_entry k es

-- What `dirlink` ends with: a panic on a full disk, -1, or 0.
pub data DirlinkEnd : Type 0 where
  dirlink_panics : DirlinkEnd
  exists : DirlinkEnd
  entered : Fs → DirlinkEnd

pub dirlink : ℕ → List ℕ → ℕ → Fs → DirlinkEnd
unfolding lookup add_entry
dirlink d name inum s = elim (lookup name (s.slots d)) [
  | some (i, k) ↦ exists
  | none ↦ elim (s.takes d (s.slots d)) [
    | false ↦ dirlink_panics
    | true ↦ entered (record s { slots = update s.slots d (add_entry name inum (s.slots d)) })
  ]
]

-- `create` panics where `dirlink` does not return 0.
abbrev pub if_entered : DirlinkEnd → Option Fs
if_entered dirlink_panics = none
if_entered exists = none
if_entered (entered s) = some s

-- The test of `isdirempty`, from the third entry on.
abbrev pub all_free : List Entry → Bool
all_free [] = true
all_free (e ∷ es) = e.inum == 0 && all_free es

abbrev pub isdirempty : List Entry → Bool
isdirempty es = all_free (drop 2 es)

-- `iput`: the last reference to an inode without links frees it.
pub iput : ℕ → Fs → Fs
iput i s =
    if s.ref i == 1 && s.nlink i == 0
    then record s { type = update s.type i 0; slots = update s.slots i []; ref = update s.ref i 0 }
    else record s { ref = update s.ref i (s.ref i - 1) }

abbrev pub iget : ℕ → Fs → Fs
iget i s = record s { ref = update s.ref i (s.ref i + 1) }

-- `ialloc`: the first free inode; `none` is the panic, of `ialloc` or of `iget`.
pub ialloc : ℕ → Fs → Option (ℕ × Fs)
ialloc type s = elim (find (s.ninodes - 1) 1 (λ i. s.type i == 0)) [
  | none ↦ none
  | some i ↦ elim (has_room s.ninodes i s.ref) [
    | false ↦ none
    | true ↦ some (
      i,
      iget i (record s {
        type = update s.type i type;
        nlink = update s.nlink i 0;
        device = update s.device i (0, 0);
        slots = update s.slots i [];
      }),
    )
  ]
]

abbrev pub set_nlink : ℕ → ℕ → Fs → Fs
set_nlink i n s = record s { nlink = update s.nlink i n }

-- `dirlookup` of a name, up to its `iget`.
abbrev pub entry_at : Fs → ℕ → List ℕ → LookupEnd
entry_at s i name = elim (lookup name (s.slots i)) [
  | none ↦ absent
  | some (j, k) ↦ found j (16 * k)
]

abbrev pub after_walk : Fs → WalkEnd → Option (Fs × Option (ℕ × List ℕ))
after_walk s walk_panics = none
after_walk s (walked ref end) = some (record s { ref = ref }, end)

-- `namei` and `nameiparent` of a process with the current directory `cwd`; 1 is ROOTINO, and `none` is a
-- panic.
pub resolve : Bool → ℕ → List ℕ → Fs → Option (Fs × Option (ℕ × List ℕ))
unfolding lookup
resolve parent cwd path s =
    after_walk s (namex s.ninodes s.type (entry_at s) parent 1 cwd path s.ref)

-- What a call ends with: a panic, -1 or 0; or a panic, 0 or an inode.
pub data CallEnd : Type 0 where
  panics : CallEnd
  fails : Fs → CallEnd
  succeeds : Fs → CallEnd

pub data CreateEnd : Type 0 where
  create_panics : CreateEnd
  not_created : Fs → CreateEnd
  created : ℕ → Fs → CreateEnd

-- `create` where the name is there.
abbrev pub open_existing : ℕ → ℕ → ℕ → Fs → CreateEnd
open_existing type dp ip s =
    let s1 = iput dp (iget ip s) in
    if s1.type ip == 0
    then create_panics
    else if type == t_file && s1.type ip == t_file
    then created ip s1
    else not_created (iput ip s1)

-- The entries `.` and `..` of a new directory; `none` is the panic.
pub add_dots : ℕ → ℕ → Fs → Option Fs
unfolding dirlink
add_dots ip dp s = elim (if_entered (dirlink ip dot ip (set_nlink dp (s.nlink dp + 1) s))) [
  | none ↦ none
  | some s1 ↦ if_entered (dirlink ip dotdot dp s1)
]

-- `create` from the new inode on.
pub fill_new : ℕ → ℕ → List ℕ → ℕ × ℕ → ℕ → Fs → CreateEnd
unfolding add_dots dirlink iput
fill_new type dp name device ip s =
    let s1 = record s { nlink = update s.nlink ip 1; device = update s.device ip device } in
    elim (if type == t_dir then add_dots ip dp s1 else some s1) [
      | none ↦ create_panics
      | some s2 ↦ elim (if_entered (dirlink dp name ip s2)) [
        | none ↦ create_panics
        | some s3 ↦ created ip (iput dp s3)
      ]
    ]

-- `create` in the directory `dp`, which is referenced.
pub create_in : ℕ → ℕ × ℕ → ℕ → List ℕ → Fs → CreateEnd
unfolding lookup ialloc fill_new
create_in type device dp name s = elim (lookup name (s.slots dp)) [
  | some (ip, k) ↦ elim (has_room s.ninodes ip s.ref) [
    | false ↦ create_panics
    | true ↦ open_existing type dp ip s
  ]
  | none ↦ elim (ialloc type s) [
    | none ↦ create_panics
    | some (ip, s1) ↦ fill_new type dp name device ip s1
  ]
]

-- `create` after `nameiparent`.
pub create_at : ℕ → ℕ × ℕ → Fs × Option (ℕ × List ℕ) → CreateEnd
unfolding create_in
create_at type device (s, none) = not_created s
create_at type device (s, some (dp, name)) = create_in type device dp name s

pub create : ℕ → List ℕ → ℕ → ℕ × ℕ → Fs → CreateEnd
unfolding resolve create_at
create cwd path type device s = elim (resolve true cwd path s) [
  | none ↦ create_panics
  | some end ↦ create_at type device end
]

-- sys_link: the code after `bad`.
abbrev pub undo_link : ℕ → Fs → CallEnd
undo_link ip s = fails (iput ip (set_nlink ip (s.nlink ip - 1) s))

pub link_in : ℕ → Fs × Option (ℕ × List ℕ) → CallEnd
unfolding dirlink iput
link_in ip (s, none) = undo_link ip s
link_in ip (s, some (dp, name)) = elim (dirlink dp name ip s) [
  | dirlink_panics ↦ panics
  | exists ↦ undo_link ip (iput dp s)
  | entered s1 ↦ succeeds (iput ip (iput dp s1))
]

pub link_to : ℕ → List ℕ → Fs × Option (ℕ × List ℕ) → CallEnd
unfolding resolve link_in iput
link_to cwd new (s, none) = fails s
link_to cwd new (s, some (ip, rest)) =
    if s.type ip == 0
    then panics
    else if s.type ip == t_dir
    then fails (iput ip s)
    else (elim (resolve true cwd new (set_nlink ip (s.nlink ip + 1) s)) [
      | none ↦ panics
      | some end ↦ link_in ip end
    ])

pub sys_link : ℕ → List ℕ → List ℕ → Fs → CallEnd
unfolding resolve link_to
sys_link cwd old new s = elim (resolve false cwd old s) [
  | none ↦ panics
  | some end ↦ link_to cwd new end
]

-- The end of sys_unlink: the references are given up, and the inode has one link less.
pub drop_link : ℕ → ℕ → Fs → CallEnd
unfolding iput
drop_link dp ip s = let s1 = iput dp s in succeeds (iput ip (set_nlink ip (s1.nlink ip - 1) s1))

-- sys_unlink where the entry is the one at `k`, for the inode `ip`.
pub unlink_entry : ℕ → ℕ → ℕ → Fs → CallEnd
unfolding clear_entry iput drop_link
unlink_entry dp ip k s =
    if s.type ip == 0 || ltb (s.nlink ip) 1
    then panics
    else if s.type ip == t_dir && not (isdirempty (s.slots ip))
    then fails (iput dp (iput ip s))
    else (let s1 = record s { slots = update s.slots dp (clear_entry k (s.slots dp)) } in
        drop_link dp ip (if s1.type ip == t_dir then set_nlink dp (s1.nlink dp - 1) s1 else s1))

pub unlink_in : Fs × Option (ℕ × List ℕ) → CallEnd
unfolding lookup unlink_entry iput
unlink_in (s, none) = fails s
unlink_in (s, some (dp, name)) =
    if same name dot || same name dotdot
    then fails (iput dp s)
    else (elim (lookup name (s.slots dp)) [
      | none ↦ fails (iput dp s)
      | some (ip, k) ↦ elim (has_room s.ninodes ip s.ref) [
        | false ↦ panics
        | true ↦ unlink_entry dp ip k (iget ip s)
      ]
    ])

pub sys_unlink : ℕ → List ℕ → Fs → CallEnd
unfolding resolve unlink_in
sys_unlink cwd path s = elim (resolve true cwd path s) [ none ↦ panics | some end ↦ unlink_in end ]

-- What sys_mkdir and sys_mknod make of the result of `create`.
abbrev pub put_new : CreateEnd → CallEnd
put_new create_panics = panics
put_new (not_created s) = fails s
put_new (created ip s) = succeeds (iput ip s)

pub sys_mkdir : ℕ → List ℕ → Fs → CallEnd
unfolding create iput
sys_mkdir cwd path s = put_new (create cwd path t_dir (0, 0) s)

pub sys_mknod : ℕ → List ℕ → ℕ × ℕ → Fs → CallEnd
unfolding create iput
sys_mknod cwd path device s = put_new (create cwd path t_dev device s)

-- sys_chdir: `created` with the new current directory, or -1.
pub sys_chdir : ℕ → List ℕ → Fs → CreateEnd
unfolding resolve iput
sys_chdir cwd path s = elim (resolve false cwd path s) [
  | none ↦ create_panics
  | some (s1, end) ↦ elim end [
    | none ↦ not_created s1
    | some (ip, rest) ↦
        if s1.type ip == 0
        then create_panics
        else if s1.type ip == t_dir
        then created ip (iput cwd s1)
        else not_created (iput ip s1)
  ]
]

-- The inode that sys_open opens, up to `filealloc`.
pub open_inode : ℕ → List ℕ → Bool → ℕ → Fs → CreateEnd
unfolding resolve create iput
open_inode cwd path creating omode s =
    if creating then create cwd path t_file (0, 0) s else (elim (resolve false cwd path s) [
      | none ↦ create_panics
      | some (s1, end) ↦ elim end [
        | none ↦ not_created s1
        | some (ip, rest) ↦
            if s1.type ip == 0
            then create_panics
            else if s1.type ip == t_dir && not (omode == 0)
            then not_created (iput ip s1)
            else created ip s1
      ]
    ])
